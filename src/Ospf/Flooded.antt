-- ===== src/Ospf/Flooded.antt =====
-- Which neighbors an LSA is flooded to (ospf6_flood_interface of ospf6-sibling/ospf6_flood.c).
use mathlib.Core.Option.{some-injective}
use harry.Base.{
  ℕ, ◌-◌, ◌<◌, ◌≡◌, ◌≢◌, refl, sym, ap, ◌∙◌, Bool, true, false, not, ◌&&◌, ◌||◌, List, [], ◌∷◌,
  Option, none, some, arith, ltb, leb, ◌==◌, if◌then◌else◌, inl, inr, ◌⊎◌, Bool-cases, Option-cases,
  All, ==_iff, subst,
}
use harry.Ospf.Lsa.{
  Lsa, Recency, first_recent, neither_recent, second_recent, is_same, recency,
  ospf6_lsa_age_current, ospf6_lsa_compare, compares_ages, aged,
}
use harry.Ospf.Lsdb.{Lsdb, lsdb_key, key_of, find, unplace, ospf6_lsdb_lookup, ospf6_lsdb_remove}
use harry.Ospf.State.{full, rank, is_state, Neighbor}
use harry.Ospf.Flood.{with_copy, without, check_request, retransmit, is_router, flood_neighbor}
use harry.Ospf.Stored.{added, ospf6_lsdb_add_lem, find-equal, find-differ}

-- The id and the router of an LSA have 32 bits.
abbrev pub Bounded : Lsa → Type 0
Bounded x = (x.id < 4294967296) × (x.adv_router < 4294967296)

same_key : (a b : Lsa) → Bounded a → Bounded b → key_of b ≡ key_of a → is_same a b ≡ true
unfolding is_same lsdb_key
same_key a b h k e =
    let id : a.id ≡ b.id = omega (arith, e, h, k) in
    let router : a.adv_router ≡ b.adv_router = omega (arith, e, h, k) in
    let type : a.lsa_type ≡ b.lsa_type = omega (arith, e, h, k) in ground arith

pub ospf6_lsa_compare_lem :
    (now : ℕ) (a b : Lsa)
    → Bounded a
    → Bounded b
    → key_of b ≡ key_of a
    → (aged : Lsa × Lsa) × (ospf6_lsa_compare now a b ≡ some (recency now a b, aged))
unfolding ospf6_lsa_compare
ospf6_lsa_compare_lem now a b h k e =
    ((aged now (compares_ages a b) a, aged now (compares_ages a b) b), rw (same_key a b h k e) refl)

pub find-key : (k : ℕ) (xs : List Lsa) (x : Lsa) → find k xs ≡ some x → key_of x ≡ k
unfolding find
find-key k [] x h = absurd cc
find-key k (y ∷ ys) x h = ground (arith, find-key k ys x)

differs : (a b : ℕ) → (a == b) ≡ false → a ≢ b
differs a b h e = ground arith

pub find-All :
    (P : Lsa → Type 0) (k : ℕ) (xs : List Lsa) (x : Lsa) → All P xs → find k xs ≡ some x → P x
unfolding find
find-All P k [] x a h = absurd cc
find-All P k (y ∷ ys) x a h = elim (Bool-cases (key_of y == k)) [
  | inl e ↦
      let same = some-injective y x (sym (find-equal k y ys ((==_iff (key_of y) k).0 e)) ∙ h) in
      subst P same a.0
  | inr e ↦ find-All P k ys x a.1 (sym (find-differ k y ys (differs (key_of y) k e)) ∙ h)
]

pub with_copy_lem :
    (now : ℕ) (lsa : Lsa) (db : Lsdb)
    → 20 < lsa.length
    → with_copy now lsa db ≡ some (added (ospf6_lsa_age_current now lsa) db)
unfolding with_copy ospf6_lsa_age_current
with_copy_lem now lsa db h =
    let (calls, e) = ospf6_lsdb_add_lem now (ospf6_lsa_age_current now lsa) db h in rw e refl

-- A list without the LSA of a key.
abbrev pub removed : ℕ → Lsdb → Lsdb
removed k db = record { lsas = unplace k db.lsas; count = db.count - 1; hooks = db.hooks }

pub without_lem :
    (x y : Lsa) (db : Lsdb)
    → find (key_of x) db.lsas ≡ some y
    → without x db ≡ some (removed (key_of x) db)
unfolding without ospf6_lsdb_remove
without_lem x y db h = rw h refl

-- What the request list of a neighbor makes of an LSA: whether it goes on to the neighbor, which is
-- not so where the neighbor is to send that instance or a newer one, and the list after it.
abbrev pub goes_on : Option Recency → Bool
goes_on none = true
goes_on (some first_recent) = true
goes_on (some _) = false

abbrev pub is_answered : Option Recency → Bool
is_answered (some first_recent) = true
is_answered (some neither_recent) = true
is_answered _ = false

abbrev pub recency_of : ℕ → Lsa → Option Lsa → Option Recency
recency_of now lsa none = none
recency_of now lsa (some req) = some (recency now lsa req)

abbrev pub requested : ℕ → Lsa → Lsdb → Option Recency
requested now lsa requests = recency_of now lsa (find (key_of lsa) requests.lsas)

abbrev pub requests_after : ℕ → Lsa → Lsdb → Lsdb
requests_after now lsa requests =
    if is_answered (requested now lsa requests) then removed (key_of lsa) requests else requests

pub Recency-cases :
    (r : Recency) → (r ≡ first_recent) ⊎ ((r ≡ neither_recent) ⊎ (r ≡ second_recent))
Recency-cases first_recent = inl refl
Recency-cases neither_recent = inr (inl refl)
Recency-cases second_recent = inr (inr refl)

check_request_lem :
    (now : ℕ) (lsa : Lsa) (requests : Lsdb)
    → Bounded lsa
    → All Bounded requests.lsas
    → check_request now lsa requests
      ≡ some (goes_on (requested now lsa requests), requests_after now lsa requests)
unfolding check_request ospf6_lsdb_lookup
check_request_lem now lsa requests b all = elim (Option-cases (find (key_of lsa) requests.lsas)) [
  | inl e ↦ rw (e, check_request) refl
  | inr (req, e) ↦
      let key = find-key (key_of lsa) requests.lsas req e in
      let (_, c) =
        ospf6_lsa_compare_lem now lsa req b (find-All Bounded (key_of lsa) requests.lsas req all e)
          key in
      let gone : without req requests ≡ some (removed (key_of lsa) requests) =
        without_lem req req requests (ap (λ k. find k requests.lsas) key ∙ e)
        ∙ ap (λ k. some (removed k requests)) key in
      elim (Recency-cases (recency now lsa req)) [
        | inl q ↦ rw (e, check_request, c, q, gone) refl
        | inr (inl q) ↦ rw (e, check_request, c, q, gone) refl
        | inr (inr q) ↦ rw (e, check_request, c, q) refl
      ]
]

-- Whether an LSA from `from` is to be sent to a neighbor until it is acknowledged.
abbrev pub is_sent : ℕ → Option ℕ → Lsa → Neighbor → Bool
is_sent now from lsa on =
    leb 6 (rank on.state)
    && (is_state on.state full || goes_on (requested now lsa on.request_list))
    && not (is_router from on.router_id)

-- Whether a neighbor's request for an LSA is looked at.
abbrev pub is_checked : Neighbor → Bool
is_checked on = leb 6 (rank on.state) && not (is_state on.state full)

abbrev pub after_flood : ℕ → Option ℕ → Lsa → Neighbor → Neighbor
after_flood now from lsa on = record on {
  request_list = if is_checked on then requests_after now lsa on.request_list else on.request_list;
  retrans_list =
      if is_sent now from lsa on
      then added (ospf6_lsa_age_current now lsa) on.retrans_list
      else on.retrans_list;
}

-- `ltb a b` is the negation of `leb b a`.
not-ltb : (a b : ℕ) → leb b a ≡ not (ltb a b)
not-ltb a b = ground arith

pub flood_neighbor_lem :
    (now : ℕ) (from : Option ℕ) (lsa : Lsa) (on : Neighbor)
    → 20 < lsa.length
    → Bounded lsa
    → All Bounded on.request_list.lsas
    → flood_neighbor now from lsa on ≡ some (after_flood now from lsa on, is_sent now from lsa on)
unfolding flood_neighbor retransmit
flood_neighbor_lem now from lsa on long b all =
    let low = not-ltb (rank on.state) 6 in
    elim (Bool-cases (ltb (rank on.state) 6)) [
      | inl r ↦ rw (low, r) refl
      | inr r ↦ elim (Bool-cases (is_state on.state full)) [
        | inl s ↦ elim (Bool-cases (is_router from on.router_id)) [
          | inl f ↦ rw (low, r, s, f) refl
          | inr f ↦ rw (low, r, s, f, with_copy_lem now lsa on.retrans_list long) refl
        ]
        | inr s ↦
            let checked = check_request_lem now lsa on.request_list b all in
            elim (Bool-cases (goes_on (requested now lsa on.request_list))) [
              | inl g ↦ elim (Bool-cases (is_router from on.router_id)) [
                | inl f ↦ rw (low, r, s, checked, g, f) refl
                | inr f ↦
                    rw (low, r, s, checked, g, f, with_copy_lem now lsa on.retrans_list long) refl
              ]
              | inr g ↦ rw (low, r, s, checked, g) refl
            ]
      ]
    ]
