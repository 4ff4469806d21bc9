-- ===== src/Ospf/Spread.antt =====
-- Where an LSA comes to by flooding (ospf6_flood of ospf6-sibling/ospf6_flood.c).
use mathlib.Core.Option.{some-injective}
use harry.Base.{
  ℕ, zero, suc, ◌+◌, ◌<◌, ◌≡◌, refl, ap, ◌∙◌, Bool, true, false, not, ◌&&◌, ◌||◌, List, [], ◌∷◌,
  Option, some, arith, ◌==◌, if◌then◌else◌, ◌>>=◌, inl, inr, Bool-cases, All, get_elem?,
  get_elem?-map,
}
use harry.Ospf.Lsa.{Lsa, ospf6_lsa_age_current}
use harry.Ospf.Lsdb.{ospf6_lsdb_lookup}
use harry.Ospf.State.{Neighbor, Interface, Task, Area, Top, IfPlace, Sender}
use harry.Ospf.Flood.{
  Scope, linklocal, area_scope, as_scope, reserved, scope_of, as_external, listed, sender_on,
  skips_interface, skips_area, ospf6_flood, is_linklocal, is_area_scope,
}
use harry.Ospf.Receive.{interface_at, scoped_lsdb}
use harry.Ospf.Stored.{find-place_same}
use harry.Ospf.Flooded.{Bounded, is_sent, after_flood}
use harry.Ospf.Reached.{
  AreAsking, flooded_if, flooded_ifs, flooded_areas, flooded_top, ospf6_flood_lem,
}

abbrev pub place : ℕ → ℕ → IfPlace
place a i = record { area = a; index = i }

-- Whether an interface is in the flooding scope of an LSA whose data base is that of `owner`.
abbrev pub within : Scope → Bool → Bool → Bool
within linklocal same_area same_index = same_area && same_index
within area_scope same_area same_index = same_area
within _ same_area same_index = true

abbrev pub is_in_scope : IfPlace → Lsa → ℕ → ℕ → Area → Bool
is_in_scope owner lsa a i oa =
    within (scope_of lsa.lsa_type) (a == owner.area) (i == owner.index)
    && not (lsa.lsa_type == as_external && oa.is_stub)

within_lem :
    (s : Scope) (x y e : Bool)
    → ((is_area_scope s && not x || is_linklocal s && not x || e) || is_linklocal s && not y)
      ≡ not (within s x y && not e)
within_lem linklocal x y e = ground arith
within_lem area_scope x y e = ground arith
within_lem as_scope x y e = ground arith
within_lem reserved x y e = ground arith

skips_lem :
    (owner : IfPlace) (lsa : Lsa) (a i : ℕ) (oa : Area)
    → (skips_area owner lsa a oa || skips_interface owner lsa (place a i))
      ≡ not (is_in_scope owner lsa a i oa)
unfolding skips_area skips_interface
skips_lem owner lsa a i oa =
    within_lem (scope_of lsa.lsa_type) (a == owner.area) (i == owner.index)
      (lsa.lsa_type == as_external && oa.is_stub)

abbrev pub spread_if : ℕ → ℕ → Option Sender → IfPlace → Lsa → ℕ → ℕ → Area → Interface → Interface
spread_if now junk from owner lsa a i oa oi =
    if is_in_scope owner lsa a i oa
    then flooded_if now junk (sender_on from (place a i)) lsa oi
    else oi

plus_zero : (n : ℕ) → n ≡ n + 0
plus_zero n = omega arith

zero_plus : (n : ℕ) → 0 + n ≡ n
zero_plus n = omega arith

not-false : {b : Bool} → true ≡ not b → b ≡ false
not-false {b} h = ground arith

plus_suc : (n i : ℕ) → suc n + i ≡ n + suc i
plus_suc n i = omega arith

module _ (now junk : ℕ) (from : Option Sender) (owner : IfPlace) (lsa : Lsa) where
  turn : ℕ → ℕ → Interface → Interface
  turn a i oi =
      if skips_interface owner lsa (place a i)
      then oi
      else flooded_if now junk (sender_on from (place a i)) lsa oi

  get_elem?-flooded_ifs :
      (a n i : ℕ) (ois : List Interface) (oi : Interface)
      → get_elem? ois i ≡ some oi
      → get_elem? (flooded_ifs now junk from owner lsa (place a n) ois) i ≡ some (turn a (n + i) oi)
  unfolding turn
  get_elem?-flooded_ifs a n i [] oi h = absurd cc
  get_elem?-flooded_ifs a n zero (x ∷ xs) oi h =
      ap some (ap (turn a n) (some-injective x oi h) ∙ ap (λ k. turn a k oi) (plus_zero n))
  get_elem?-flooded_ifs a n (suc i) (x ∷ xs) oi h =
      get_elem?-flooded_ifs a (suc n) i xs oi h ∙ ap (λ k. some (turn a k oi)) (plus_suc n i)

  turn-scope :
      (a i : ℕ) (oa : Area) (oi : Interface)
      → skips_interface owner lsa (place a i) ≡ not (is_in_scope owner lsa a i oa)
      → turn a i oi ≡ spread_if now junk from owner lsa a i oa oi
  unfolding turn
  turn-scope a i oa oi e = elim (Bool-cases (is_in_scope owner lsa a i oa)) [
    | inl s ↦ rw (e, s) refl
    | inr s ↦ rw (e, s) refl
  ]

  pub area_turn : ℕ → Area → Area
  area_turn a oa =
      if skips_area owner lsa a oa
      then oa
      else record oa { if_list = flooded_ifs now junk from owner lsa (place a 0) oa.if_list }

  get_elem?-flooded_areas :
      (n a : ℕ) (oas : List Area) (oa : Area)
      → get_elem? oas a ≡ some oa
      → get_elem? (flooded_areas now junk from owner lsa n oas) a ≡ some (area_turn (n + a) oa)
  unfolding area_turn
  get_elem?-flooded_areas n a [] oa h = absurd cc
  get_elem?-flooded_areas n zero (x ∷ xs) oa h =
      ap some (ap (area_turn n) (some-injective x oa h) ∙ ap (λ k. area_turn k oa) (plus_zero n))
  get_elem?-flooded_areas n (suc a) (x ∷ xs) oa h =
      get_elem?-flooded_areas (suc n) a xs oa h ∙ ap (λ k. some (area_turn k oa)) (plus_suc n a)

  pub area_turn-at :
      (a i : ℕ) (oa : Area) (oi : Interface)
      → get_elem? oa.if_list i ≡ some oi
      → get_elem? (area_turn a oa).if_list i ≡ some (spread_if now junk from owner lsa a i oa oi)
  unfolding area_turn
  area_turn-at a i oa oi k =
      let skip = skips_lem owner lsa a i oa in
      elim (Bool-cases (skips_area owner lsa a oa)) [
        | inl s ↦ rw (s, not-false (rw s at skip)) k
        | inr s ↦ rw s (
            get_elem?-flooded_ifs a 0 i oa.if_list oi k
            ∙ ap (λ n. some (turn a n oi)) (zero_plus i)
            ∙ ap some (turn-scope a i oa oi (rw s at skip)))
      ]

  pub area_at-flooded :
      (top : Top) (a : ℕ) (oa : Area)
      → get_elem? top.area_list a ≡ some oa
      → get_elem? (flooded_areas now junk from owner lsa 0 top.area_list) a ≡ some (area_turn a oa)
  area_at-flooded top a oa h =
      get_elem?-flooded_areas 0 a top.area_list oa h ∙ ap (λ n. some (area_turn n oa)) (zero_plus a)

  -- The interface at a place after the flood.
  pub interface_at-flooded :
      (top : Top) (a i : ℕ) (oa : Area) (oi : Interface)
      → get_elem? top.area_list a ≡ some oa
      → get_elem? oa.if_list i ≡ some oi
      → interface_at (place a i) (flooded_top now junk from owner lsa top)
        ≡ some (spread_if now junk from owner lsa a i oa oi)
  unfolding interface_at
  interface_at-flooded top a i oa oi h k =
      ap (λ o. o >>= λ r. get_elem? r.if_list i) (area_at-flooded top a oa h)
      ∙ area_turn-at a i oa oi k

listed-after_flood :
    (now : ℕ) (from : Option ℕ) (lsa : Lsa) (on : Neighbor)
    → listed lsa (after_flood now from lsa on).retrans_list ≡ (
        if is_sent now from lsa on
        then some (ospf6_lsa_age_current now lsa)
        else listed lsa on.retrans_list)
listed-after_flood now from lsa on = elim (Bool-cases (is_sent now from lsa on)) [
  | inl s ↦ rw s (
      unfold ospf6_lsdb_lookup ospf6_lsa_age_current in
      find-place_same (ospf6_lsa_age_current now lsa) on.retrans_list.lsas)
  | inr s ↦ rw s refl
]

-- An LSA with a body is flooded, with an id and a router of 32 bits, and the LSAs that are
-- requested of neighbors have such too. Then no assertion fails, and a neighbor on an interface has
-- the LSA, with its age of the moment, in its list of retransmissions if the interface is in the
-- LSA's scope, the neighbor is in OSPF6_NEIGHBOR_EXCHANGE or later and not the sender, and either
-- is in OSPF6_NEIGHBOR_FULL or has not been asked for this instance or a newer one; otherwise that
-- list has for the LSA's key what it had.
pub ospf6_flood-reaches :
    (now junk : ℕ) (from : Option Sender) (owner : IfPlace) (lsa : Lsa) (top : Top) (a i j : ℕ)
    (oa : Area) (oi : Interface) (on : Neighbor)
    → 20 < lsa.length
    → Bounded lsa
    → All (λ r. AreAsking r.if_list) top.area_list
    → get_elem? top.area_list a ≡ some oa
    → get_elem? oa.if_list i ≡ some oi
    → get_elem? oi.neighbor_list j ≡ some on
    → (after : Top) × ((tasks : List Task) × ((ospf6_flood now junk from owner lsa top
            ≡ some (after, tasks))
          × ((oi' : Interface) × ((interface_at (place a i) after ≡ some oi')
                × ((on' : Neighbor) × ((get_elem? oi'.neighbor_list j ≡ some on')
                      × (listed lsa on'.retrans_list ≡ (
                          if is_in_scope owner lsa a i oa
                            && is_sent now (sender_on from (place a i)) lsa on
                          then some (ospf6_lsa_age_current now lsa)
                          else listed lsa on.retrans_list))))))))
ospf6_flood-reaches now junk from owner lsa top a i j oa oi on long b all h k l =
    let (tasks, e) = ospf6_flood_lem now junk from owner lsa top long b all in
    let at = interface_at-flooded now junk from owner lsa top a i oa oi h k in
    let heard = sender_on from (place a i) in
    (
      flooded_top now junk from owner lsa top,
      (
        tasks,
        (
          e,
          (
            spread_if now junk from owner lsa a i oa oi,
            (
              at,
              elim (Bool-cases (is_in_scope owner lsa a i oa)) [
                | inl s ↦ rw s (
                  after_flood now heard lsa on,
                  (
                    get_elem?-map (after_flood now heard lsa) oi.neighbor_list j on l,
                    listed-after_flood now heard lsa on,
                  ),
                )
                | inr s ↦ rw s (on, (l, refl))
              ],
            ),
          ),
        ),
      ),
    )

-- The data base of a scope is that of before, at a place that there is.
pub scoped_lsdb-flooded :
    (now junk : ℕ) (from : Option Sender) (owner : IfPlace) (lsa : Lsa) (top : Top) (s : Scope)
    (a i : ℕ) (oa : Area) (oi : Interface)
    → get_elem? top.area_list a ≡ some oa
    → get_elem? oa.if_list i ≡ some oi
    → scoped_lsdb s (place a i) (flooded_top now junk from owner lsa top)
      ≡ scoped_lsdb s (place a i) top
unfolding scoped_lsdb
scoped_lsdb-flooded now junk from owner lsa top linklocal a i oa oi h k =
    let at : interface_at (place a i) top ≡ some oi = unfold interface_at in rw h k in
    rw (interface_at-flooded now junk from owner lsa top a i oa oi h k, at)
      (elim (Bool-cases (is_in_scope owner lsa a i oa)) [ inl s ↦ rw s refl | inr s ↦ rw s refl ])
scoped_lsdb-flooded now junk from owner lsa top area_scope a i oa oi h k =
    rw (area_at-flooded now junk from owner lsa top a oa h, h)
      (unfold area_turn in
        elim (Bool-cases (skips_area owner lsa a oa)) [ inl s ↦ rw s refl | inr s ↦ rw s refl ])
scoped_lsdb-flooded now junk from owner lsa top as_scope a i oa oi h k = refl
scoped_lsdb-flooded now junk from owner lsa top reserved a i oa oi h k = refl
