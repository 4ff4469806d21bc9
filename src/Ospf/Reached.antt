-- ===== src/Ospf/Reached.antt =====
-- What flooding an LSA does to an interface, and to all interfaces of the process
-- (ospf6_flood_interface and ospf6_flood of ospf6-sibling/ospf6_flood.c).
use harry.Base.{
  ℕ, suc, ◌+◌, ◌<◌, ◌≡◌, refl, Bool, List, [], ◌∷◌, ◌++◌, Option, some, if◌then◌else◌, u32, inl,
  inr, Bool-cases, All, map,
}
use harry.Ospf.Lsa.{Lsa, ospf6_lsa_age_current}
use harry.Ospf.State.{
  Neighbor, Interface, Task, lsupdate_after_rxmt, lsupdate_interface, Area, Top, IfPlace, Sender,
}
use harry.Ospf.Flood.{
  flood_neighbors, is_held, flood_out, ospf6_flood_interface, sender_on, skips_interface,
  skips_area, ospf6_flood_area, ospf6_flood_process, ospf6_flood,
}
use harry.Ospf.Stored.{added}
use harry.Ospf.Flooded.{Bounded, is_sent, after_flood, flood_neighbor_lem, with_copy_lem}

-- Every LSA that is requested of a neighbor has an id and a router of 32 bits.
abbrev pub IsAsking : Neighbor → Type 0
IsAsking on = All Bounded on.request_list.lsas

abbrev rxmt_tasks : ℕ → Option ℕ → Lsa → List Neighbor → List Task
rxmt_tasks now from lsa [] = []
rxmt_tasks now from lsa (on ∷ ons) =
    if is_sent now from lsa on
    then lsupdate_after_rxmt on.router_id ∷ rxmt_tasks now from lsa ons
    else rxmt_tasks now from lsa ons

-- How many neighbors the LSA is to be sent to.
abbrev pub sent_count : ℕ → Option ℕ → Lsa → List Neighbor → ℕ
sent_count now from lsa [] = 0
sent_count now from lsa (on ∷ ons) =
    if is_sent now from lsa on
    then suc (sent_count now from lsa ons)
    else sent_count now from lsa ons

flood_neighbors_lem :
    (now : ℕ) (from : Option ℕ) (lsa : Lsa) (ons : List Neighbor)
    → 20 < lsa.length
    → Bounded lsa
    → All IsAsking ons
    → flood_neighbors now from lsa ons
      ≡ some (
        map (after_flood now from lsa) ons,
        (sent_count now from lsa ons, rxmt_tasks now from lsa ons),
      )
unfolding flood_neighbors
flood_neighbors_lem now from lsa [] long b all = refl
flood_neighbors_lem now from lsa (on ∷ ons) long b all =
    let one = flood_neighbor_lem now from lsa on long b all.0 in
    let rest = flood_neighbors_lem now from lsa ons long b all.1 in
    elim (Bool-cases (is_sent now from lsa on)) [
      | inl s ↦ rw (one, rest, s) refl
      | inr s ↦ rw (one, rest, s) refl
    ]

-- The interface after the turn of its neighbors.
abbrev pub neighbors_flooded : ℕ → Option ℕ → Lsa → Interface → Interface
neighbors_flooded now from lsa oi = record oi {
  neighbor_list = map (after_flood now from lsa) oi.neighbor_list;
}

-- Whether the LSA does not leave through the interface.
abbrev pub stays : ℕ → ℕ → Option ℕ → Lsa → Interface → Bool
stays now junk from lsa oi =
    is_held from (u32 (junk + sent_count now from lsa oi.neighbor_list))
      (neighbors_flooded now from lsa oi)

abbrev pub flooded_if : ℕ → ℕ → Option ℕ → Lsa → Interface → Interface
flooded_if now junk from lsa oi = record oi {
  neighbor_list = map (after_flood now from lsa) oi.neighbor_list;
  lsupdate_list =
      if stays now junk from lsa oi
      then oi.lsupdate_list
      else added (ospf6_lsa_age_current now lsa) oi.lsupdate_list;
}

abbrev pub flooded_tasks : ℕ → ℕ → Option ℕ → Lsa → Interface → List Task
flooded_tasks now junk from lsa oi =
    if stays now junk from lsa oi
    then rxmt_tasks now from lsa oi.neighbor_list
    else rxmt_tasks now from lsa oi.neighbor_list ++ lsupdate_interface ∷ []

pub ospf6_flood_interface_lem :
    (now junk : ℕ) (from : Option ℕ) (lsa : Lsa) (oi : Interface)
    → 20 < lsa.length
    → Bounded lsa
    → All IsAsking oi.neighbor_list
    → ospf6_flood_interface now junk from lsa oi
      ≡ some (flooded_if now junk from lsa oi, flooded_tasks now junk from lsa oi)
unfolding ospf6_flood_interface flood_out
ospf6_flood_interface_lem now junk from lsa oi long b all =
    let r = flood_neighbors_lem now from lsa oi.neighbor_list long b all in
    elim (Bool-cases (stays now junk from lsa oi)) [
      | inl s ↦ rw (r, s) refl
      | inr s ↦ rw (r, s, with_copy_lem now lsa oi.lsupdate_list long) refl
    ]

-- The interfaces of an area, and the areas, after the flood.
abbrev pub flooded_ifs :
    ℕ → ℕ → Option Sender → IfPlace → Lsa → IfPlace → List Interface → List Interface
flooded_ifs now junk from owner lsa p [] = []
flooded_ifs now junk from owner lsa p (oi ∷ ois) =
    (if skips_interface owner lsa p then oi else flooded_if now junk (sender_on from p) lsa oi)
    ∷ flooded_ifs now junk from owner lsa (record p { index = suc p.index }) ois

abbrev pub flooded_areas : ℕ → ℕ → Option Sender → IfPlace → Lsa → ℕ → List Area → List Area
flooded_areas now junk from owner lsa a [] = []
flooded_areas now junk from owner lsa a (oa ∷ oas) =
    (if skips_area owner lsa a oa then oa else record oa {
      if_list = flooded_ifs now junk from owner lsa (record { area = a; index = 0 }) oa.if_list;
    })
    ∷ flooded_areas now junk from owner lsa (suc a) oas

abbrev pub flooded_top : ℕ → ℕ → Option Sender → IfPlace → Lsa → Top → Top
flooded_top now junk from owner lsa top = record top {
  area_list = flooded_areas now junk from owner lsa 0 top.area_list;
}

-- The neighbors of all interfaces only ask for LSAs of 32 bits.
abbrev pub AreAsking : List Interface → Type 0
AreAsking ois = All (λ oi. All IsAsking oi.neighbor_list) ois

ospf6_flood_area_lem :
    (now junk : ℕ) (from : Option Sender) (owner : IfPlace) (lsa : Lsa) (p : IfPlace)
    (ois : List Interface)
    → 20 < lsa.length
    → Bounded lsa
    → AreAsking ois
    → (tasks : List Task) × (ospf6_flood_area now junk from owner lsa p ois
        ≡ some (flooded_ifs now junk from owner lsa p ois, tasks))
unfolding ospf6_flood_area
ospf6_flood_area_lem now junk from owner lsa p [] long b all = ([], refl)
ospf6_flood_area_lem now junk from owner lsa p (oi ∷ ois) long b all =
    let one = ospf6_flood_interface_lem now junk (sender_on from p) lsa oi long b all.0 in
    let (tasks, rest) =
      ospf6_flood_area_lem now junk from owner lsa (record p { index = suc p.index }) ois long b
        all.1 in
    elim (Bool-cases (skips_interface owner lsa p)) [
      | inl s ↦ (tasks, rw (s, rest) refl)
      | inr s ↦ (flooded_tasks now junk (sender_on from p) lsa oi ++ tasks, rw (s, one, rest) refl)
    ]

ospf6_flood_process_lem :
    (now junk : ℕ) (from : Option Sender) (owner : IfPlace) (lsa : Lsa) (a : ℕ) (oas : List Area)
    → 20 < lsa.length
    → Bounded lsa
    → All (λ oa. AreAsking oa.if_list) oas
    → (tasks : List Task) × (ospf6_flood_process now junk from owner lsa a oas
        ≡ some (flooded_areas now junk from owner lsa a oas, tasks))
unfolding ospf6_flood_process
ospf6_flood_process_lem now junk from owner lsa a [] long b all = ([], refl)
ospf6_flood_process_lem now junk from owner lsa a (oa ∷ oas) long b all =
    let first_if : IfPlace = record { area = a; index = 0 } in
    let (sent, one) =
      ospf6_flood_area_lem now junk from owner lsa first_if oa.if_list long b all.0 in
    let (tasks, rest) = ospf6_flood_process_lem now junk from owner lsa (suc a) oas long b all.1 in
    elim (Bool-cases (skips_area owner lsa a oa)) [
      | inl s ↦ (tasks, rw (s, rest) refl)
      | inr s ↦ (sent ++ tasks, rw (s, one, rest) refl)
    ]

pub ospf6_flood_lem :
    (now junk : ℕ) (from : Option Sender) (owner : IfPlace) (lsa : Lsa) (top : Top)
    → 20 < lsa.length
    → Bounded lsa
    → All (λ oa. AreAsking oa.if_list) top.area_list
    → (tasks : List Task) × (ospf6_flood now junk from owner lsa top
        ≡ some (flooded_top now junk from owner lsa top, tasks))
unfolding ospf6_flood
ospf6_flood_lem now junk from owner lsa top long b all =
    let (tasks, e) = ospf6_flood_process_lem now junk from owner lsa 0 top.area_list long b all in
    (tasks, rw e refl)
