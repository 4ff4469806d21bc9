-- ===== src/Sibling/Oldest.antt =====
-- The election loop against its specification: a replica is the oldest if no other address has an
-- earlier timestamp, or the same one and a smaller known id.
use harry.Base.{
  ℕ, ◌≡◌, refl, sym, ap₂, ◌∙◌, List, [], ◌∷◌, ◌++◌, Option, none, some, Bool, true, false, not,
  ◌&&◌, ◌||◌, ◌==◌, ltb, if◌then◌else◌, inl, inr, arith, Bool-cases, Option-cases,
}
use harry.Sibling.State.{Sibling, Sisis}
use harry.Sibling.Election.{
  create_replica, find_replica_from_addr, remove_invalid, or_create, update_replicas, still_oldest,
  elect_loop,
}

abbrev pub entry_id : Sibling → Option ℕ
entry_id s = if s.id_valid then some s.id else none

-- The id that the process has for an address.
abbrev pub known_id : ℕ → List Sibling → Option ℕ
known_id addr ss = elim (find_replica_from_addr addr ss) [ none ↦ none | some s ↦ entry_id s ]

abbrev pub is_lower : Option ℕ → ℕ → Bool
is_lower none k = false
is_lower (some i) k = ltb i k

-- An address does not keep the replica from being the oldest.
abbrev pub yields : Sisis → Sibling → List Sibling → ℕ → Bool
yields env own ss addr =
    addr == own.sibling_addr
    || (not (ltb (env.timestamp addr) (env.timestamp own.sibling_addr))
        && not (
            env.timestamp addr == env.timestamp own.sibling_addr
            && is_lower (known_id addr ss) own.id))

abbrev pub is_oldest : Sisis → Sibling → List Sibling → List ℕ → Bool
is_oldest env own ss [] = true
is_oldest env own ss (addr ∷ addrs) = yields env own ss addr && is_oldest env own ss addrs

find-remove_invalid :
    (a b : ℕ) (ss : List Sibling)
    → find_replica_from_addr a (remove_invalid b ss) ≡ find_replica_from_addr a ss
unfolding find_replica_from_addr remove_invalid
find-remove_invalid a b [] = refl
find-remove_invalid a b (s ∷ ss) = ground (arith, find-remove_invalid a b ss)

find-create :
    (a b : ℕ) (ss : List Sibling)
    → find_replica_from_addr b ss ≡ none
    → known_id a (ss ++ create_replica b ∷ []) ≡ known_id a ss
unfolding find_replica_from_addr create_replica
find-create a b [] h = ground arith
find-create a b (s ∷ ss) h = ground (arith, find-create a b ss)

known_id-find :
    (a : ℕ) (xs ys : List Sibling)
    → find_replica_from_addr a xs ≡ find_replica_from_addr a ys
    → known_id a xs ≡ known_id a ys
known_id-find a xs ys h = ground arith

-- Looking an address up keeps what is known of every address.
known_id-update_replicas :
    (a b : ℕ) (ss : List Sibling) → known_id a (update_replicas b ss).0 ≡ known_id a ss
unfolding update_replicas or_create
known_id-update_replicas a b ss = elim (Option-cases (find_replica_from_addr b ss)) [
  | inl e ↦
      rw (e, or_create)
        (find-create a b (remove_invalid b ss) (find-remove_invalid b b ss ∙ e)
          ∙ known_id-find a (remove_invalid b ss) ss (find-remove_invalid a b ss))
  | inr (s, e) ↦
      rw (e, or_create) (known_id-find a (remove_invalid b ss) ss (find-remove_invalid a b ss))
]

-- What the look-up returns is what is known of the address.
entry_id-update_replicas :
    (b : ℕ) (ss : List Sibling) → entry_id (update_replicas b ss).1 ≡ known_id b ss
unfolding update_replicas or_create create_replica
entry_id-update_replicas b ss = ground arith

still_oldest-entry :
    (env : Sisis) (own s : Sibling) (addr : ℕ) (oldest : Bool)
    → still_oldest env own s addr oldest ≡ (
        oldest
        && (not (ltb (env.timestamp addr) (env.timestamp own.sibling_addr))
            && not (
                env.timestamp addr == env.timestamp own.sibling_addr
                && is_lower (entry_id s) own.id)))
unfolding still_oldest
still_oldest-entry env own s addr oldest = ground arith

yields-known :
    (env : Sisis) (own : Sibling) (ss tt' : List Sibling) (addr : ℕ)
    → known_id addr ss ≡ known_id addr tt'
    → yields env own ss addr ≡ yields env own tt' addr
yields-known env own ss tt' addr h = rw h

is_oldest-known :
    (env : Sisis) (own : Sibling) (ss tt' : List Sibling) (addrs : List ℕ)
    → ((a : ℕ) → known_id a ss ≡ known_id a tt')
    → is_oldest env own ss addrs ≡ is_oldest env own tt' addrs
is_oldest-known env own ss tt' [] h = refl
is_oldest-known env own ss tt' (a ∷ addrs) h =
    ap₂ ◌&&◌ (yields-known env own ss tt' a (h a)) (is_oldest-known env own ss tt' addrs h)

&&-assoc : (a b c : Bool) → (a && (b && c)) ≡ ((a && b) && c)
&&-assoc a b c = ground arith

&&-true : (a : Bool) → (a && true) ≡ a
&&-true a = ground arith

-- The election loop, which creates and removes replicas on its way, leaves its flag true exactly
-- when it was true before and no other address has an earlier timestamp, or the same one and a
-- smaller id known at the start.
pub elect_loop-is_oldest :
    (env : Sisis) (own : Sibling) (addrs : List ℕ) (ss : List Sibling) (oldest : Bool)
    → (elect_loop env own addrs ss oldest).1 ≡ (oldest && is_oldest env own ss addrs)
unfolding elect_loop
elect_loop-is_oldest env own [] ss oldest = sym (&&-true oldest)
elect_loop-is_oldest env own (a ∷ addrs) ss oldest = elim (Bool-cases (a == own.sibling_addr)) [
  | inl mine ↦ rw (mine, elect_loop) (elect_loop-is_oldest env own addrs ss oldest)
  | inr other ↦
      rw (other, elect_loop)
        (elect_loop-is_oldest env own addrs (update_replicas a ss).0 _
          ∙ rw
              (
                still_oldest-entry env own (update_replicas a ss).1 a oldest,
                entry_id-update_replicas a ss,
                is_oldest-known env own (update_replicas a ss).0 ss addrs
                    (λ b. known_id-update_replicas b a ss),
              )
              (sym (&&-assoc oldest _ _)))
]
