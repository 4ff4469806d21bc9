-- ===== src/Ospf/Flood.antt =====
-- The flooding of an LSA (ospf6-sibling/ospf6_flood.c): ospf6_flood_interface, and the loops over
-- interfaces and areas. An LSA that is compared or copied has its age of the moment; the copies in
-- lists are brought up to date where they are read. `none` is a failed assertion.
use harry.Base.{
  ℕ, zero, suc, ◌+◌, ◌/◌, ◌%◌, Bool, true, false, not, ◌&&◌, ◌||◌, List, [], ◌∷◌, ◌++◌, Option,
  none, some, ltb, ◌==◌, if◌then◌else◌, ◌>>=◌, u32, map,
}
use harry.Ospf.Lsa.{
  Lsa, first_recent, neither_recent, second_recent, ospf6_lsa_age_current, ospf6_lsa_compare,
}
use harry.Ospf.Lsdb.{Lsdb, ospf6_lsdb_lookup, ospf6_lsdb_add, ospf6_lsdb_remove}
use harry.Ospf.State.{
  full, rank, is_state, Neighbor, if_bdr, is_if_state, Interface, Task, lsupdate_send,
  lsupdate_after_rxmt, lsupdate_interface, Area, Top, IfPlace, Sender,
}

-- OSPF6_LSA_SCOPE.
pub data Scope : Type 0 where
  linklocal area_scope as_scope reserved : Scope

abbrev scope_number : ℕ → Scope
scope_number zero = linklocal
scope_number (suc zero) = area_scope
scope_number (suc (suc zero)) = as_scope
scope_number _ = reserved

unfoldable pub scope_of : ℕ → Scope
scope_of type = scope_number (type / 8192 % 4)

abbrev pub as_external : ℕ
as_external = 16389

-- The LSA that a list of an interface or a neighbor has for the key of another.
abbrev pub listed : Lsa → Lsdb → Option Lsa
listed lsa db = ospf6_lsdb_lookup lsa.lsa_type lsa.id lsa.adv_router db

-- A list that has no hooks with a copy of an LSA, or without an LSA.
unfoldable pub with_copy : ℕ → Lsa → Lsdb → Option Lsdb
unfolding ospf6_lsdb_add ospf6_lsa_age_current
with_copy now lsa db = ospf6_lsdb_add now (ospf6_lsa_age_current now lsa) db >>= λ r. some r.0

unfoldable pub without : Lsa → Lsdb → Option Lsdb
unfolding ospf6_lsdb_remove
without lsa db = ospf6_lsdb_remove lsa db >>= λ r. some r.0

-- Whether the request list lets the LSA go on to the neighbor, and that list after it.
unfoldable pub check_request : ℕ → Lsa → Lsdb → Option (Bool × Lsdb)
unfolding ospf6_lsa_compare without
check_request now lsa requests = elim (listed lsa requests) [
  | none ↦ some (true, requests)
  | some req ↦ ospf6_lsa_compare now lsa req >>= λ c. elim (c.0) [
    | second_recent ↦ some (false, requests)
    | neither_recent ↦ without req requests >>= λ left. some (false, left)
    | first_recent ↦ without req requests >>= λ left. some (true, left)
  ]
]

-- The neighbor after its turn in the loop, and whether the LSA was added to its retransmissions.
unfoldable pub retransmit : ℕ → Lsa → Neighbor → Option (Neighbor × Bool)
unfolding with_copy
retransmit now lsa on = with_copy now lsa on.retrans_list >>= λ retrans.
    some (record on { retrans_list = retrans }, true)

abbrev pub is_router : Option ℕ → ℕ → Bool
is_router none id = false
is_router (some r) id = r == id

unfoldable pub flood_neighbor : ℕ → Option ℕ → Lsa → Neighbor → Option (Neighbor × Bool)
unfolding check_request retransmit
flood_neighbor now from lsa on =
    let checked =
      if is_state on.state full
      then some (true, on.request_list)
      else check_request now lsa on.request_list in
    if ltb (rank on.state) 6
    then some (on, false)
    else (checked >>= λ c.
        let next = record on { request_list = c.1 } in
        if not c.0
        then some (next, false)
        else if is_router from on.router_id
        then some (next, false)
        else retransmit now lsa next)

-- The loop over the neighbors, with the count of those that were added.
unfoldable pub flood_neighbors :
    ℕ → Option ℕ → Lsa → List Neighbor → Option (List Neighbor × (ℕ × List Task))
unfolding flood_neighbor
flood_neighbors now from lsa [] = some ([], (0, []))
flood_neighbors now from lsa (on ∷ ons) = flood_neighbor now from lsa on >>= λ one.
    flood_neighbors now from lsa ons >>= λ rest. some (
      one.0 ∷ rest.0,
      (
        if one.1 then suc rest.1.0 else rest.1.0,
        if one.1 then lsupdate_after_rxmt on.router_id ∷ rest.1.1 else rest.1.1,
      ),
    )

-- if_is_broadcast of lib/if.c.
abbrev if_is_broadcast : Bool
if_is_broadcast = true

-- Whether the LSA is not flooded out of the interface: steps (2), (3) and (4).
unfoldable pub is_held : Option ℕ → ℕ → Interface → Bool
is_held from retrans_added oi =
    retrans_added == 0
    || is_router from oi.drouter
    || is_router from oi.bdrouter
    || elim from [ none ↦ false | some r ↦ is_if_state oi.state if_bdr ]

-- Step (5).
unfoldable pub flood_out : ℕ → Lsa → Interface → Option (Interface × List Task)
unfolding with_copy
flood_out now lsa oi =
    if if_is_broadcast
    then (with_copy now lsa oi.lsupdate_list >>= λ updates.
        some (record oi { lsupdate_list = updates }, lsupdate_interface ∷ []))
    else some (oi, map (λ on. lsupdate_send on.router_id) oi.neighbor_list)

-- ospf6_flood_interface, with the router id of the sender if it is a neighbor on this interface.
-- `retrans_added` has no first value: it is `junk`.
unfoldable pub ospf6_flood_interface :
    ℕ → ℕ → Option ℕ → Lsa → Interface → Option (Interface × List Task)
unfolding flood_neighbors is_held flood_out
ospf6_flood_interface now junk from lsa oi = flood_neighbors now from lsa oi.neighbor_list >>= λ r.
    let oi' = record oi { neighbor_list = r.0 } in
    if is_held from (u32 (junk + r.1.0)) oi'
    then some (oi', r.1.1)
    else (flood_out now lsa oi' >>= λ out. some (out.0, r.1.1 ++ out.1))

-- The sender's router id on the interface at a place.
abbrev pub sender_on : Option Sender → IfPlace → Option ℕ
sender_on none p = none
sender_on (some s) p =
    if s.at.area == p.area && s.at.index == p.index then some s.router_id else none

abbrev pub is_linklocal : Scope → Bool
is_linklocal linklocal = true
is_linklocal _ = false

abbrev pub is_area_scope : Scope → Bool
is_area_scope area_scope = true
is_area_scope _ = false

-- The place whose data base the LSA is in, with the area's and the interface's tests.
unfoldable pub skips_interface : IfPlace → Lsa → IfPlace → Bool
unfolding scope_of
skips_interface owner lsa p = is_linklocal (scope_of lsa.lsa_type) && not (p.index == owner.index)

unfoldable pub skips_area : IfPlace → Lsa → ℕ → Area → Bool
unfolding scope_of
skips_area owner lsa a oa =
    is_area_scope (scope_of lsa.lsa_type) && not (a == owner.area)
    || is_linklocal (scope_of lsa.lsa_type) && not (a == owner.area)
    || lsa.lsa_type == as_external && oa.is_stub

unfoldable pub ospf6_flood_area :
    ℕ
    → ℕ
    → Option Sender
    → IfPlace
    → Lsa
    → IfPlace
    → List Interface
    → Option (List Interface × List Task)
unfolding ospf6_flood_interface skips_interface
ospf6_flood_area now junk from owner lsa p [] = some ([], [])
ospf6_flood_area now junk from owner lsa p (oi ∷ ois) =
    let flooded = ospf6_flood_interface now junk (sender_on from p) lsa oi in
    let first = if skips_interface owner lsa p then some (oi, []) else flooded in
    first >>= λ one.
    ospf6_flood_area now junk from owner lsa (record p { index = suc p.index }) ois >>= λ rest.
    some (one.0 ∷ rest.0, one.1 ++ rest.1)

abbrev pub with_if_list : Area → List Interface × List Task → Area × List Task
with_if_list oa r = (record oa { if_list = r.0 }, r.1)

unfoldable pub ospf6_flood_process :
    ℕ → ℕ → Option Sender → IfPlace → Lsa → ℕ → List Area → Option (List Area × List Task)
unfolding ospf6_flood_area skips_area
ospf6_flood_process now junk from owner lsa a [] = some ([], [])
ospf6_flood_process now junk from owner lsa a (oa ∷ oas) =
    let first_if : IfPlace = record { area = a; index = 0 } in
    let flooded = ospf6_flood_area now junk from owner lsa first_if oa.if_list >>= λ r.
    some (with_if_list oa r) in
    let first = if skips_area owner lsa a oa then some (oa, []) else flooded in
    first >>= λ one. ospf6_flood_process now junk from owner lsa (suc a) oas >>= λ rest.
    some (one.0 ∷ rest.0, one.1 ++ rest.1)

-- ospf6_flood of an LSA whose data base is that of a place.
unfoldable pub ospf6_flood : ℕ → ℕ → Option Sender → IfPlace → Lsa → Top → Option (Top × List Task)
unfolding ospf6_flood_process
ospf6_flood now junk from owner lsa top =
    ospf6_flood_process now junk from owner lsa 0 top.area_list >>= λ r.
    some (record top { area_list = r.0 }, r.1)
