-- ===== src/Controller/Slots.antt =====
-- The array of OSPF6 siblings when a new one comes: new_sib_router of controller/sib_router.c.
use Prim.Native.Nat.{◌≤◌}
use harry.Base.{
  ℕ, zero, suc, ◌-◌, ◌≡◌, refl, List, [], ◌∷◌, ◌++◌, none, some, Bool, true, false, ◌==◌, leb,
  if◌then◌else◌, ◌⊎◌, inl, inr, arith, Bool-cases, length, map,
}
use harry.Controller.State.{SibRouter, Controller}
use harry.Controller.Life.{
  sib_router_create, null_slots, slots_of, set_slot, siblings_of, fill_slot, elect_slots,
  first_transition, new_ospf6_sibling,
}

-- The loop reaches the slot behind the siblings, which is NULL or behind the array.
elect_slots-none :
    (i k : ℕ) (ss : List SibRouter)
    → elect_slots i (suc (length ss)) (map some ss ++ null_slots k) ≡ none
unfolding elect_slots null_slots
elect_slots-none i zero [] = refl
elect_slots-none i (suc k) [] = refl
elect_slots-none i k (s ∷ ss) = rw (elect_slots-none (suc i) k ss) refl

set_slot-full :
    (ss : List SibRouter) (sr : SibRouter)
    → set_slot (map some ss ++ null_slots 0) (length ss) sr ≡ none
unfolding set_slot null_slots
set_slot-full [] sr = refl
set_slot-full (s ∷ ss) sr = rw (set_slot-full ss sr) refl

set_slot-free :
    (k : ℕ) (ss : List SibRouter) (sr : SibRouter)
    → set_slot (map some ss ++ null_slots (suc k)) (length ss) sr
      ≡ some (map some (ss ++ sr ∷ []) ++ null_slots k)
unfolding set_slot null_slots
set_slot-free k [] sr = refl
set_slot-free k (s ∷ ss) sr = rw (set_slot-free k ss sr) refl

siblings_of-map :
    (k : ℕ) (ss : List SibRouter) (sr : SibRouter)
    → siblings_of (suc (length ss)) (map some (ss ++ sr ∷ []) ++ null_slots k)
      ≡ some (ss ++ sr ∷ [])
unfolding siblings_of
siblings_of-map k [] sr = refl
siblings_of-map k (s ∷ ss) sr = rw (siblings_of-map k ss sr) refl

first_transition-busy :
    (c : Controller)
    → (c.n_ospf6_siblings_routing == c.num_sibs_conf) ≡ true
    → first_transition (suc (length c.ospf6_siblings)) c ≡ none
unfolding first_transition slots_of
first_transition-busy c h =
    rw (h, elect_slots-none 0 (9 - length c.ospf6_siblings) c.ospf6_siblings) refl

first_transition-idle :
    (c : Controller)
    → (c.n_ospf6_siblings_routing == c.num_sibs_conf) ≡ false
    → first_transition (suc (length c.ospf6_siblings)) c ≡ some c
unfolding first_transition
first_transition-idle c h = rw h refl

room : (size n : ℕ) → (size ≤ n) ⊎ ((k : ℕ) × (size - n ≡ suc k))
room size n = elim (Bool-cases (leb size n)) [
  | inl h ↦ inl (ground arith)
  | inr h ↦ inr (size - n - 1, ground arith)
]

-- A new sibling takes the slot behind the others, if the array has one.
pub fill_slot_lem :
    (size : ℕ) (ss : List SibRouter) (sr : SibRouter)
    → fill_slot size ss sr ≡ (if leb size (length ss) then none else some (ss ++ sr ∷ []))
unfolding fill_slot slots_of
fill_slot_lem size ss sr = elim (room size (length ss)) [
  | inl full ↦
      let beyond : size - length ss ≡ 0 = omega arith in
      let bound : leb size (length ss) ≡ true = ground arith in
      rw (beyond, set_slot-full ss sr, bound) refl
  | inr (k, free) ↦
      let bound : leb size (length ss) ≡ false = ground arith in
      rw (free, set_slot-free k ss sr, siblings_of-map k ss sr, bound) refl
]

-- A new sibling is added if the array has a slot, and if the siblings that route are not as many as
-- are configured.
pub new_ospf6_sibling_lem :
    (c : Controller) (junk : Bool)
    → new_ospf6_sibling c junk ≡ (
        if leb 9 (length c.ospf6_siblings)
        then none
        else if c.n_ospf6_siblings_routing == c.num_sibs_conf
        then none
        else some (record c { ospf6_siblings = c.ospf6_siblings ++ sib_router_create junk ∷ [] }))
unfolding new_ospf6_sibling
new_ospf6_sibling_lem c junk =
    let filled = fill_slot_lem 9 c.ospf6_siblings (sib_router_create junk) in
    elim (Bool-cases (c.n_ospf6_siblings_routing == c.num_sibs_conf)) [
      | inl h ↦ rw (first_transition-busy c h, h) (ground arith)
      | inr h ↦ elim (Bool-cases (leb 9 (length c.ospf6_siblings))) [
        | inl k ↦ rw (first_transition-idle c h, filled, k) refl
        | inr k ↦ rw (first_transition-idle c h, filled, k, h) refl
      ]
    ]
