-- ===== src/Controller/Accept.antt =====
-- The faults of sib_listener_accept of controller/sib_router.c.
use harry.Base.{
  ℕ, suc, ◌≤◌, ◌≡◌, refl, ◌↔◌, List, [], ◌∷◌, Option, none, some, Bool, false, ◌⊎◌, inl, inr, arith,
  All, Bool-cases, length,
}
use harry.Controller.State.{SibRouter, is_disconnected, Controller}
use harry.Controller.Slots.{new_ospf6_sibling_lem}
use harry.Controller.Life.{find_disconnected, new_ospf6_sibling, reuse_or_new, accept_ospf6}

abbrev pub IsConnected : SibRouter → Type 0
IsConnected s = is_disconnected s.state ≡ false

find_disconnected-none :
    (i : ℕ) (ss : List SibRouter) → find_disconnected i ss ≡ none → All IsConnected ss
unfolding find_disconnected
find_disconnected-none i [] e = tt
find_disconnected-none i (s ∷ ss) e = elim (Bool-cases (is_disconnected s.state)) [
  | inl d ↦ cc (rw d at e)
  | inr d ↦ (d, find_disconnected-none (suc i) ss (rw d at e))
]

none-find_disconnected :
    (i : ℕ) (ss : List SibRouter) → All IsConnected ss → find_disconnected i ss ≡ none
unfolding find_disconnected
none-find_disconnected i [] h = refl
none-find_disconnected i (s ∷ ss) h = rw h.0 (none-find_disconnected (suc i) ss h.1)

new-none_iff :
    (c : Controller) (junk : Bool)
    → (new_ospf6_sibling c junk ≡ none)
      ↔ ((9 ≤ length c.ospf6_siblings) ⊎ (c.n_ospf6_siblings_routing ≡ c.num_sibs_conf))
new-none_iff c junk = rw (new_ospf6_sibling_lem c junk) (ground arith)

reuse_returns :
    (c : Controller) (junk : Bool) (i : ℕ) (s : SibRouter)
    → reuse_or_new (some (i, s)) c junk ≡ none
    → ⊥
unfolding reuse_or_new
reuse_returns c junk i s h = cc

-- A new OSPF6 connection faults exactly when no sibling is disconnected, so that none can be
-- reused, and all nine slots are taken or as many siblings are counted as routing as are
-- configured.
pub accept_ospf6-none_iff :
    (c : Controller) (junk : Bool)
    → (accept_ospf6 c junk ≡ none) ↔ (
        All IsConnected c.ospf6_siblings
        × ((9 ≤ length c.ospf6_siblings) ⊎ (c.n_ospf6_siblings_routing ≡ c.num_sibs_conf)))
unfolding accept_ospf6
accept_ospf6-none_iff c junk = (there (find_disconnected 0 c.ospf6_siblings) refl, back)
  where
    there :
        (o : Option (ℕ × SibRouter))
        → find_disconnected 0 c.ospf6_siblings ≡ o
        → reuse_or_new o c junk ≡ none
        → All IsConnected c.ospf6_siblings
          × ((9 ≤ length c.ospf6_siblings) ⊎ (c.n_ospf6_siblings_routing ≡ c.num_sibs_conf))
    there none e h = (
      find_disconnected-none 0 c.ospf6_siblings e,
      (new-none_iff c junk).0 (unfold reuse_or_new in h),
    )
    there (some (i, s)) e h = absurd (reuse_returns c junk i s h)

    back :
        All IsConnected c.ospf6_siblings
          × ((9 ≤ length c.ospf6_siblings) ⊎ (c.n_ospf6_siblings_routing ≡ c.num_sibs_conf))
        → reuse_or_new (find_disconnected 0 c.ospf6_siblings) c junk ≡ none
    back (h, k) =
        rw (none-find_disconnected 0 c.ospf6_siblings h)
          (unfold reuse_or_new in (new-none_iff c junk).1 k)
