-- ===== src/Ospf/Receive.antt =====
-- The receipt of an LSA (ospf6_receive_lsa and ospf6_install_lsa of ospf6-sibling/ospf6_flood.c) from
-- a neighbor, and its acknowledgement. The time is in microseconds. `none` is a failed assertion,
-- or a sender that is not in the lists.
use harry.Base.{
  ℕ, ◌-◌, ◌*◌, ◌/◌, Bool, true, false, not, ◌&&◌, List, [], ◌∷◌, ◌++◌, Option, none, some, ltb,
  ◌==◌, if◌then◌else◌, ◌>>=◌, get_elem?, set,
}
use harry.Ospf.Lsa.{
  Lsa, Recency, first_recent, neither_recent, second_recent, is_maxage, ospf6_lsa_compare,
}
use harry.Ospf.Lsdb.{Lsdb, ospf6_lsdb_add}
use harry.Ospf.State.{
  Neighbor, if_bdr, is_if_state, Interface, Task, lsupdate_unless_pending, lsack_unless_pending,
  bad_lsreq_event, lsack_after_delay, lsa_expires, lsa_refresh, lsdb_hooks, Top, IfPlace, Sender,
}
use harry.Ospf.Neighbor.{ospf6_neighbor_lookup}
use harry.Ospf.Hello.{write_neighbor}
use harry.Ospf.Flood.{
  Scope, linklocal, area_scope, as_scope, reserved, scope_of, listed, with_copy, without,
  ospf6_flood,
}
use harry.Ospf.Checksum.{ospf6_lsa_checksum}

-- The interface at a place, and the data base of a scope for an LSA that arrives there.
unfoldable pub interface_at : IfPlace → Top → Option Interface
interface_at p top = get_elem? top.area_list p.area >>= λ oa. get_elem? oa.if_list p.index

unfoldable pub set_interface : IfPlace → Interface → Top → Option Top
set_interface p oi top = get_elem? top.area_list p.area >>= λ oa. some (record top {
  area_list = set top.area_list p.area (record oa { if_list = set oa.if_list p.index oi });
})

unfoldable pub scoped_lsdb : Scope → IfPlace → Top → Option Lsdb
unfolding interface_at
scoped_lsdb linklocal p top = interface_at p top >>= λ oi. some oi.lsdb
scoped_lsdb area_scope p top = get_elem? top.area_list p.area >>= λ oa. some oa.lsdb
scoped_lsdb as_scope p top = some top.lsdb
scoped_lsdb reserved p top = none

unfoldable pub set_scoped_lsdb : Scope → IfPlace → Lsdb → Top → Option Top
unfolding interface_at set_interface
set_scoped_lsdb linklocal p db top =
    interface_at p top >>= λ oi. set_interface p (record oi { lsdb = db }) top
set_scoped_lsdb area_scope p db top = get_elem? top.area_list p.area >>= λ oa.
    some (record top { area_list = set top.area_list p.area (record oa { lsdb = db }) })
set_scoped_lsdb as_scope p db top = some (record top { lsdb = db })
set_scoped_lsdb reserved p db top = none

-- The flags of an LSA that acknowledgements read. OSPF6_LSA_FLOODBACK is never set.
pub record LsaFlags : Type 0 where
  pub floodback : Bool
  pub duplicate : Bool
  pub implied_ack : Bool

pub data Ack : Type 0 where
  no_ack delayed_ack direct_ack : Ack

abbrev pub is_newer : Recency → Bool
is_newer first_recent = true
is_newer _ = false

-- ospf6_acknowledge_lsa_bdrouter, where the sender may be the designated router.
unfoldable pub ack_bdrouter : LsaFlags → Recency → Bool → Ack
ack_bdrouter flags ismore_recent from_dr =
    if flags.floodback
    then no_ack
    else if is_newer ismore_recent
    then (if from_dr then delayed_ack else no_ack)
    else if flags.duplicate && flags.implied_ack
    then (if from_dr then delayed_ack else no_ack)
    else if flags.duplicate && not flags.implied_ack
    then direct_ack
    else no_ack

unfoldable pub ack_allother : LsaFlags → Recency → Ack
ack_allother flags ismore_recent =
    if flags.floodback
    then no_ack
    else if is_newer ismore_recent
    then delayed_ack
    else if flags.duplicate && flags.implied_ack
    then no_ack
    else if flags.duplicate && not flags.implied_ack
    then direct_ack
    else no_ack

unfoldable pub ack_of : LsaFlags → Recency → ℕ → Interface → Ack
unfolding ack_bdrouter ack_allother
ack_of flags ismore_recent router_id oi =
    if is_if_state oi.state if_bdr
    then ack_bdrouter flags ismore_recent (oi.drouter == router_id)
    else ack_allother flags ismore_recent

unfoldable pub write_ack : Ack → ℕ → Lsa → Neighbor → Interface → Option (Interface × List Task)
unfolding with_copy write_neighbor
write_ack no_ack now lsa on oi = some (oi, [])
write_ack delayed_ack now lsa on oi = with_copy now lsa oi.lsack_list >>= λ acks.
    some (record oi { lsack_list = acks }, lsack_after_delay ∷ [])
write_ack direct_ack now lsa on oi = with_copy now lsa on.lsack_list >>= λ acks. some (
  record oi { neighbor_list = write_neighbor (record on { lsack_list = acks }) oi.neighbor_list },
  lsack_unless_pending on.router_id ∷ [],
)

-- ospf6_acknowledge_lsa.
unfoldable pub ospf6_acknowledge_lsa :
    ℕ → Lsa → LsaFlags → Recency → Sender → Top → Option (Top × List Task)
unfolding interface_at ospf6_neighbor_lookup ack_of write_ack set_interface
ospf6_acknowledge_lsa now lsa flags ismore_recent from top = interface_at from.at top >>= λ oi.
    ospf6_neighbor_lookup from.router_id oi.neighbor_list >>= λ on.
    write_ack (ack_of flags ismore_recent from.router_id oi) now lsa on oi >>= λ r.
    set_interface from.at r.0 top >>= λ top'. some (top', r.1)

-- ospf6_install_lsa, at a time in seconds and in microseconds.
unfoldable pub ospf6_install_lsa : ℕ → ℕ → Scope → IfPlace → Lsa → Top → Option (Top × List Task)
unfolding scoped_lsdb set_scoped_lsdb ospf6_lsdb_add is_maxage
ospf6_install_lsa now time scope p lsa top = scoped_lsdb scope p top >>= λ db.
    let lsa' = record lsa { installed = time } in
    ospf6_lsdb_add now lsa' db >>= λ r. set_scoped_lsdb scope p r.0 top >>= λ top'. some (
      top',
      if is_maxage now lsa then lsdb_hooks r.1 ∷ [] else lsa_expires lsa' ∷ lsdb_hooks r.1 ∷ [],
    )

-- A neighbor of the sender's interface after an operation on it.
unfoldable pub change_neighbor : Sender → Interface → Neighbor → Top → Option Top
unfolding write_neighbor set_interface
change_neighbor from oi on top =
    set_interface from.at (record oi { neighbor_list = write_neighbor on oi.neighbor_list }) top

abbrev min_ls_arrival : ℕ
min_ls_arrival = 1

-- The guard of MinLSArrival.
unfoldable pub arrives_early : ℕ → Option Lsa → Bool
arrives_early time none = false
arrives_early time (some old) = ltb (time - old.installed) (min_ls_arrival * 1000000)

-- Step (5): the LSA is more recent, or new.
unfoldable pub take_newer : ℕ → ℕ → Scope → Lsa → LsaFlags → Sender → Top → Option (Top × List Task)
unfolding ospf6_flood ospf6_install_lsa ospf6_acknowledge_lsa
take_newer time junk scope new flags from top =
    let now = time / 1000000 in
    let is_own = new.adv_router == top.router_id in
    let flooded = ospf6_flood now junk (some from) from.at new top in
    let first = if is_own then some (top, []) else flooded in
    first >>= λ sent. ospf6_install_lsa now time scope from.at new sent.0 >>= λ put.
    ospf6_acknowledge_lsa now new flags first_recent from put.0 >>= λ acked.
    some (acked.0, sent.1 ++ put.1 ++ acked.1 ++ (if is_own then lsa_refresh new ∷ [] else []))

-- Step (7): the same instance, which acknowledges a retransmission.
unfoldable pub take_same :
    ℕ → Lsa → LsaFlags → Sender → Interface → Neighbor → Top → Option (Top × List Task)
unfolding without change_neighbor ospf6_acknowledge_lsa
take_same now new flags from oi on top = elim (listed new on.retrans_list) [
  | none ↦ ospf6_acknowledge_lsa now new flags neither_recent from top
  | some rem ↦ without rem on.retrans_list >>= λ left.
      change_neighbor from oi (record on { retrans_list = left }) top >>= λ top'.
      ospf6_acknowledge_lsa now new (record flags { implied_ack = true }) neither_recent from top'
]

-- MAX_SEQUENCE_NUMBER.
abbrev pub max_sequence_number : ℕ
max_sequence_number = 2147483647

-- Step (8): the copy in the data base is sent back.
unfoldable pub send_back : ℕ → Lsa → Sender → Interface → Neighbor → Top → Option (Top × List Task)
unfolding with_copy change_neighbor is_maxage
send_back now old from oi on top =
    let sent = with_copy now old on.lsupdate_list >>= λ updates.
    change_neighbor from oi (record on { lsupdate_list = updates }) top >>= λ top'.
    some (top', lsupdate_unless_pending on.router_id ∷ []) in
    if is_maxage now old && old.seqnum == max_sequence_number then some (top, []) else sent

-- Steps (6) to (8), with what is requested of the neighbor.
unfoldable pub settle_older :
    ℕ
    → Recency
    → Lsa
    → Lsa
    → LsaFlags
    → Sender
    → Interface
    → Neighbor
    → Option Lsa
    → Top
    → Option (Top × List Task)
unfolding take_same send_back
settle_older now r new old flags from oi on (some req) top =
    some (top, bad_lsreq_event on.router_id ∷ [])
settle_older now first_recent new old flags from oi on none top = send_back now old from oi on top
settle_older now neither_recent new old flags from oi on none top =
    take_same now new flags from oi on top
settle_older now second_recent new old flags from oi on none top = send_back now old from oi on top

unfoldable pub take_older :
    ℕ → Recency → Lsa → Lsa → LsaFlags → Sender → Top → Option (Top × List Task)
unfolding interface_at ospf6_neighbor_lookup settle_older
take_older now ismore_recent new old flags from top = interface_at from.at top >>= λ oi.
    ospf6_neighbor_lookup from.router_id oi.neighbor_list >>= λ on.
    settle_older now ismore_recent new old flags from oi on (listed new on.request_list) top

-- Steps (5) to (8), with the copy in the data base.
unfoldable pub take_lsa : ℕ → ℕ → Scope → Lsa → Option Lsa → Sender → Top → Option (Top × List Task)
unfolding take_newer take_older arrives_early ospf6_lsa_compare
take_lsa time junk scope new none from top =
    take_newer time junk scope new
      (record { floodback = false; duplicate = false; implied_ack = false }) from top
take_lsa time junk scope new (some old) from top =
    let now = time / 1000000 in
    let flags : LsaFlags = record {
      floodback = false;
      duplicate = new.seqnum == old.seqnum;
      implied_ack = false;
    } in
    let newer = take_newer time junk scope new flags from top in
    ospf6_lsa_compare now new old >>= λ c.
    if not (is_newer c.0)
    then take_older now c.0 new old flags from top
    else if arrives_early time (some old)
    then some (top, [])
    else newer

-- `return 0` for an LSA that is known.
abbrev pub unless_known : Option Lsa → Bool → Bool
unless_known (some old) no_value = false
unless_known none no_value = no_value

-- ospf6_is_maxage_lsa_drop, which returns nothing in particular where it comes to its end.
unfoldable pub ospf6_is_maxage_lsa_drop : ℕ → Bool → Lsa → Lsdb → Bool
unfolding is_maxage
ospf6_is_maxage_lsa_drop now no_value lsa db =
    if not (is_maxage now lsa) then false else unless_known (listed lsa db) no_value

-- An LSA of a reserved scope is ignored.
unfoldable pub unless_reserved : Scope → Top → Option (Top × List Task) → Option (Top × List Task)
unless_reserved reserved top received = some (top, [])
unless_reserved linklocal top received = received
unless_reserved area_scope top received = received
unless_reserved as_scope top received = received

-- ospf6_receive_lsa. `junk` is the first value of `retrans_added`, and `no_value` what
-- ospf6_is_maxage_lsa_drop returns without a statement for it.
unfoldable pub ospf6_receive_lsa : ℕ → ℕ → Bool → Lsa → Sender → Top → Option (Top × List Task)
unfolding scope_of scoped_lsdb ospf6_is_maxage_lsa_drop take_lsa unless_reserved
ospf6_receive_lsa time junk no_value new from top =
    let scope = scope_of new.lsa_type in
    let received = scoped_lsdb scope from.at top >>= λ db.
    if ospf6_is_maxage_lsa_drop (time / 1000000) no_value new db
    then some (top, [])
    else take_lsa time junk scope new (listed new db) from top in
    if not (ospf6_lsa_checksum new == new.checksum)
    then some (top, [])
    else unless_reserved scope top received
