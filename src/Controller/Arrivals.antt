-- ===== src/Controller/Arrivals.antt =====
-- The invariant under new connections: sib_listener_accept of controller/sib_router.c.
use harry.Base.{
  ℕ, suc, ◌+◌, ◌≡◌, refl, List, [], ◌∷◌, ◌++◌, none, some, Bool, true, false, ◌==◌, if◌then◌else◌,
  inl, inr, arith, All-append, count_if, count_if-append, Bool-cases, Option-cases, Holds,
  get_elem?, leb, length, ◌>>=◌,
}
use native.Mathlib.Nat.{zero-add}
use harry.Controller.State.{is_disconnected, SibRouter, ospf6_sib, Controller, get_sib}
use harry.Controller.Transition.{send_leader_elect}
use harry.Controller.Life.{
  sib_router_create, renewed, sib_router_reuse, find_disconnected, reuse_or_new, accept_ospf6,
  accept_bgp,
}
use harry.Controller.Slots.{fill_slot_lem, new_ospf6_sibling_lem}
use harry.Controller.Invariant.{IsSound, Inv, routes, put_sib-state_transition-Inv, elect-Inv}

find_disconnected-get :
    (k : ℕ) (xs : List SibRouter) (i : ℕ) (s : SibRouter)
    → find_disconnected k xs ≡ some (i, s)
    → (j : ℕ) × (i ≡ k + j) × (get_elem? xs j ≡ some s) × (is_disconnected s.state ≡ true)
unfolding find_disconnected
find_disconnected-get k [] i s h = cc
find_disconnected-get k (x ∷ xs) i s h = elim (Bool-cases (is_disconnected x.state)) [
  | inl e ↦ (0, ground arith, ground arith, ground arith)
  | inr e ↦
      let (j, p, q, r) = find_disconnected-get (suc k) xs i s (ground arith) in
      (suc j, omega arith, q, r)
]

created-IsSound : (junk : Bool) → IsSound (sib_router_create junk)
unfolding sib_router_create
created-IsSound junk = record { waiting_routes = λ w. cc; disconnected_empty = λ d. refl }

reuse-Inv :
    (c : Controller) (i : ℕ) (s : SibRouter)
    → Inv c
    → find_disconnected 0 c.ospf6_siblings ≡ some (i, s)
    → Inv (sib_router_reuse c (ospf6_sib i) s)
unfolding sib_router_reuse renewed get_sib
reuse-Inv c i s v h =
    let (j, p, q, r) = find_disconnected-get 0 c.ospf6_siblings i s h in
    put_sib-state_transition-Inv c (ospf6_sib i) s (renewed s) v (rw (p, zero-add) q) (ground arith)
      (record { waiting_routes = λ w. cc; disconnected_empty = λ d. refl })

count_if-created :
    (xs : List SibRouter) (junk : Bool)
    → count_if routes (xs ++ sib_router_create junk ∷ []) ≡ count_if routes xs
unfolding sib_router_create
count_if-created xs junk = omega (arith, count_if-append routes xs (sib_router_create junk ∷ []))

pub accept_ospf6-Inv : (c : Controller) (junk : Bool) → Inv c → Holds Inv (accept_ospf6 c junk)
unfolding accept_ospf6 reuse_or_new
accept_ospf6-Inv c junk v = elim (Option-cases (find_disconnected 0 c.ospf6_siblings)) [
  | inl e ↦
      rw (e, new_ospf6_sibling_lem c junk)
        (added (leb 9 (length c.ospf6_siblings)) (c.n_ospf6_siblings_routing == c.num_sibs_conf))
  | inr ((i, s), e) ↦ rw e (reuse-Inv c i s v e)
]
  where
    grown : Controller
    grown = record c { ospf6_siblings = c.ospf6_siblings ++ sib_router_create junk ∷ [] }

    grown-Inv : Inv grown
    grown-Inv = record {
      counted = rw (count_if-created c.ospf6_siblings junk) v.counted;
      ospf6_sound = All-append IsSound c.ospf6_siblings _ v.ospf6_sound (created-IsSound junk, tt);
      bgp_sound = v.bgp_sound;
    }

    added :
        (full busy : Bool) → Holds Inv (if full then none else if busy then none else some grown)
    added true busy = tt
    added false true = tt
    added false false = grown-Inv

pub accept_bgp-Inv : (c : Controller) (junk : Bool) → Inv c → Holds Inv (accept_bgp c junk)
unfolding accept_bgp
accept_bgp-Inv c junk v =
    rw (fill_slot_lem 3 elected.bgp_siblings (sib_router_create junk))
      (added (leb 3 (length elected.bgp_siblings)))
  where
    elected : Controller
    elected = if c.n_ospf6_siblings_routing == c.num_sibs_conf then send_leader_elect c else c

    elected-Inv : Inv elected
    elected-Inv = elect-Inv (c.n_ospf6_siblings_routing == c.num_sibs_conf) c v

    grown-Inv :
        (d : Controller)
        → Inv d
        → Inv (record d { bgp_siblings = d.bgp_siblings ++ sib_router_create junk ∷ [] })
    grown-Inv d w = record {
      counted = rw (count_if-created d.bgp_siblings junk) w.counted;
      ospf6_sound = w.ospf6_sound;
      bgp_sound = All-append IsSound d.bgp_siblings _ w.bgp_sound (created-IsSound junk, tt);
    }

    added :
        (full : Bool)
        → Holds Inv (
            (if full then none else some (elected.bgp_siblings ++ sib_router_create junk ∷ []))
            >>= λ ss. some (record elected { bgp_siblings = ss }))
    added true = tt
    added false = grown-Inv elected elected-Inv
