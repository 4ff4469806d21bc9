-- ===== src/Ospf/Neighbor.antt =====
-- The events of a neighbor (ospf6-sibling/ospf6_neighbor.c). A handler is given the interface and the
-- neighbor, and returns the neighbor and what it schedules; `none` is a failed assertion.
-- ospf6_get_scoped_lsdb (ospf6-sibling/ospf6_flood.c) is always NULL, so that
-- ospf6_decrement_retrans_count finds no LSA and changes nothing.
use harry.Base.{
  ℕ, Bool, true, false, not, ◌&&◌, ◌||◌, List, [], ◌∷◌, ◌++◌, Option, none, some, ltb, leb, ◌==◌,
  if◌then◌else◌, ◌>>=◌,
}
use harry.Message.{zeros}
use harry.Ospf.Lsa.{Lsa, is_maxage, ospf6_lsa_age_current}
use harry.Ospf.Lsdb.{Lsdb, ospf6_lsdb_create, ospf6_lsdb_add, ospf6_lsdb_remove_all}
use harry.Ospf.State.{
  NeighborState, down, init, twoway, exstart, exchange, loading, full, rank, is_state, DbdescBits,
  Neighbor, if_pointtopoint, if_bdr, if_dr, is_if_state, Interface, Task, neighbor_change_event,
  router_lsa, intra_prefix_lsa, dbdesc_send, cancel_dbdesc_send, inactivity_reset,
}

abbrev with_state : NeighborState → Neighbor → Neighbor
with_state next on = record on { state = next }

-- Whether a router LSA is scheduled: on the way into or out of OSPF6_NEIGHBOR_FULL.
unfoldable pub reaches_or_leaves_full : NeighborState → NeighborState → Bool
reaches_or_leaves_full prev next =
    not (is_state prev next) && (is_state prev full || is_state next full)

unfoldable pub state_change_tasks : Interface → NeighborState → NeighborState → List Task
unfolding reaches_or_leaves_full
state_change_tasks oi prev next =
    if reaches_or_leaves_full prev next
    then router_lsa ∷ (if is_if_state oi.state if_dr then intra_prefix_lsa ∷ [] else [])
    else []

unfoldable pub ospf6_neighbor_state_change :
    Interface → NeighborState → Neighbor → Neighbor × List Task
unfolding state_change_tasks
ospf6_neighbor_state_change oi next on = (with_state next on, state_change_tasks oi on.state next)

unfoldable pub need_adjacency : Interface → Neighbor → Bool
need_adjacency oi on =
    is_if_state oi.state if_pointtopoint
    || is_if_state oi.state if_dr
    || is_if_state oi.state if_bdr
    || oi.drouter == on.router_id
    || oi.bdrouter == on.router_id

unfoldable pub hello_received : Interface → Neighbor → Neighbor × List Task
unfolding ospf6_neighbor_state_change
hello_received oi on =
    let changed = ospf6_neighbor_state_change oi init on in
    if leb (rank on.state) 1
    then (changed.0, inactivity_reset ∷ changed.1)
    else (on, inactivity_reset ∷ [])

abbrev all_bits : DbdescBits
all_bits = record { msbit = true; mbit = true; ibit = true }

abbrev send_dbdesc : List Task
send_dbdesc = cancel_dbdesc_send ∷ dbdesc_send ∷ []

unfoldable pub twoway_received : Interface → Neighbor → Neighbor × List Task
unfolding ospf6_neighbor_state_change need_adjacency
twoway_received oi on =
    let plain = ospf6_neighbor_state_change oi twoway on in
    let adjacent = ospf6_neighbor_state_change oi exstart on in
    if ltb 3 (rank on.state)
    then (on, [])
    else if not (need_adjacency oi on)
    then (plain.0, neighbor_change_event ∷ plain.1)
    else (
      record adjacent.0 { dbdesc_bits = all_bits },
      neighbor_change_event ∷ adjacent.1 ++ send_dbdesc,
    )

-- ospf6_lsdb_remove_all of a list without hooks.
unfoldable pub emptied : Lsdb → Option Lsdb
unfolding ospf6_lsdb_remove_all
emptied db = ospf6_lsdb_remove_all db >>= λ r. some r.0

-- The lists of LSAs of a neighbor that an exchange starts from: the summary list, the request list
-- and the list of what is to be sent again.
pub record Lists : Type 0 where
  pub summary : Lsdb
  pub request : Lsdb
  pub retrans : Lsdb

unfoldable pub cleared_lists : Neighbor → Option Lists
unfolding emptied
cleared_lists on = emptied on.summary_list >>= λ summary. emptied on.request_list >>= λ request.
    emptied on.retrans_list >>= λ retrans.
    some (record { summary = summary; request = request; retrans = retrans })

abbrev pub with_lists : Lists → Neighbor → Neighbor
with_lists lists on = record on {
  summary_list = lists.summary;
  request_list = lists.request;
  retrans_list = lists.retrans;
}

-- The loops of negotiation_done over the LSAs of an interface and over those of the process: LSAs
-- of MAXAGE are to be sent again, the others are summarised. The area's LSAs are left out.
unfoldable pub describe : ℕ → List Lsa → Lists → Option Lists
unfolding is_maxage ospf6_lsdb_add ospf6_lsa_age_current
describe now [] lists = some lists
describe now (x ∷ xs) lists =
    let copy = ospf6_lsa_age_current now x in
    if is_maxage now x
    then (ospf6_lsdb_add now copy lists.retrans >>= λ r.
        describe now xs (record lists { retrans = r.0 }))
    else (ospf6_lsdb_add now copy lists.summary >>= λ r.
        describe now xs (record lists { summary = r.0 }))

unfoldable pub described_lists : ℕ → Lsdb → Interface → Neighbor → Option Lists
unfolding cleared_lists describe
described_lists now as_lsdb oi on = cleared_lists on >>= λ lists.
    describe now oi.lsdb.lsas lists >>= λ scoped. describe now as_lsdb.lsas scoped

unfoldable pub negotiation_done : ℕ → Lsdb → Interface → Neighbor → Option (Neighbor × List Task)
unfolding described_lists ospf6_neighbor_state_change
negotiation_done now as_lsdb oi on =
    let changed = ospf6_neighbor_state_change oi exchange on in
    if not (is_state on.state exstart)
    then some (on, [])
    else (described_lists now as_lsdb oi on >>= λ lists. some (
      record (with_lists lists changed.0) { dbdesc_bits = record on.dbdesc_bits { ibit = false } },
      changed.1,
    ))

unfoldable pub exchange_done : Interface → Neighbor → Option (Neighbor × List Task)
unfolding emptied ospf6_neighbor_state_change
exchange_done oi on =
    let next = if on.request_list.count == 0 then full else loading in
    let changed = ospf6_neighbor_state_change oi next on in
    if not (is_state on.state exchange)
    then some (on, [])
    else (emptied on.dbdesc_list >>= λ lsas.
        some (record changed.0 { dbdesc_list = lsas }, cancel_dbdesc_send ∷ changed.1))

unfoldable pub loading_done : Interface → Neighbor → Option (Neighbor × List Task)
unfolding ospf6_neighbor_state_change
loading_done oi on =
    if not (is_state on.state loading)
    then some (on, [])
    else if on.request_list.count == 0
    then some (ospf6_neighbor_state_change oi full on)
    else none

-- adj_ok does not set the bits of a data base description nor send one.
unfoldable pub adj_ok : Interface → Neighbor → Neighbor × List Task
unfolding ospf6_neighbor_state_change need_adjacency
adj_ok oi on =
    if is_state on.state twoway && need_adjacency oi on
    then ospf6_neighbor_state_change oi exstart on
    else (on, [])

-- seqnumber_mismatch; bad_lsreq does the same.
unfoldable pub seqnumber_mismatch : Interface → Neighbor → Option (Neighbor × List Task)
unfolding cleared_lists ospf6_neighbor_state_change
seqnumber_mismatch oi on =
    let changed = ospf6_neighbor_state_change oi exstart on in
    if ltb (rank on.state) 6
    then some (on, [])
    else (cleared_lists on >>= λ lists.
        some (
          record (with_lists lists changed.0) { dbdesc_bits = all_bits },
          changed.1 ++ send_dbdesc,
        ))

unfoldable pub bad_lsreq : Interface → Neighbor → Option (Neighbor × List Task)
unfolding seqnumber_mismatch
bad_lsreq oi on = seqnumber_mismatch oi on

unfoldable pub oneway_received : Interface → Neighbor → Neighbor × List Task
unfolding ospf6_neighbor_state_change
oneway_received oi on =
    let changed = ospf6_neighbor_state_change oi init on in
    if ltb (rank on.state) 4 then (on, []) else (changed.0, changed.1 ++ neighbor_change_event ∷ [])

-- ospf6_neighbor_delete: the neighbor as it is when it is freed.
unfoldable pub ospf6_neighbor_delete : Neighbor → Option Neighbor
unfolding cleared_lists emptied
ospf6_neighbor_delete on = cleared_lists on >>= λ lists. emptied on.dbdesc_list >>= λ dbdesc.
    emptied on.lsreq_list >>= λ lsreq. emptied on.lsupdate_list >>= λ lsupdate.
    emptied on.lsack_list >>= λ lsack. some (record (with_lists lists on) {
      dbdesc_list = dbdesc;
      lsreq_list = lsreq;
      lsupdate_list = lsupdate;
      lsack_list = lsack;
    })

-- inactivity_timer up to the call of ospf6_neighbor_delete.
unfoldable pub lost_neighbor : Interface → Neighbor → Neighbor × List Task
unfolding ospf6_neighbor_state_change
lost_neighbor oi on =
    let cleared = record on { drouter = 0; prev_drouter = 0; bdrouter = 0; prev_bdrouter = 0 } in
    let changed = ospf6_neighbor_state_change oi down cleared in
    (changed.0, changed.1 ++ neighbor_change_event ∷ [])

-- inactivity_timer. That the neighbor leaves the list of its interface is not in the result.
unfoldable pub inactivity_timer : Interface → Neighbor → Option (Neighbor × List Task)
unfolding lost_neighbor ospf6_neighbor_delete
inactivity_timer oi on =
    let lost = lost_neighbor oi on in ospf6_neighbor_delete lost.0 >>= λ gone. some (gone, lost.1)

unfoldable pub ospf6_neighbor_lookup : ℕ → List Neighbor → Option Neighbor
ospf6_neighbor_lookup router_id [] = none
ospf6_neighbor_lookup router_id (on ∷ ons) =
    let rest = ospf6_neighbor_lookup router_id ons in
    if on.router_id == router_id then some on else rest

unfoldable pub new_neighbor : ℕ → Neighbor
new_neighbor router_id = record {
  state = down;
  router_id = router_id;
  ifindex = 0;
  priority = 0;
  drouter = 0;
  bdrouter = 0;
  prev_drouter = 0;
  prev_bdrouter = 0;
  dbdesc_bits = record { msbit = false; mbit = false; ibit = false };
  summary_list = ospf6_lsdb_create;
  request_list = ospf6_lsdb_create;
  retrans_list = ospf6_lsdb_create;
  dbdesc_list = ospf6_lsdb_create;
  lsreq_list = ospf6_lsdb_create;
  lsupdate_list = ospf6_lsdb_create;
  lsack_list = ospf6_lsdb_create;
  dbdesc_seqnum = 0;
  options = 0 ∷ 0 ∷ 0 ∷ [];
  dbdesc_last = zeros 12;
}

unfoldable pub ospf6_neighbor_create : ℕ → Interface → Interface
unfolding new_neighbor
ospf6_neighbor_create router_id oi = record oi {
  neighbor_list = oi.neighbor_list ++ new_neighbor router_id ∷ [];
}

pub data NeighborEvent : Type 0 where
  is_hello is_twoway is_negotiated is_exchanged is_loaded : NeighborEvent
  is_adj_ok is_mismatch is_bad_lsreq is_oneway is_inactive : NeighborEvent

-- The handler of each event.
unfoldable pub handle :
    ℕ → Lsdb → Interface → NeighborEvent → Neighbor → Option (Neighbor × List Task)
unfolding hello_received twoway_received negotiation_done exchange_done loading_done adj_ok
    seqnumber_mismatch bad_lsreq oneway_received inactivity_timer
handle now as_lsdb oi is_hello on = some (hello_received oi on)
handle now as_lsdb oi is_twoway on = some (twoway_received oi on)
handle now as_lsdb oi is_negotiated on = negotiation_done now as_lsdb oi on
handle now as_lsdb oi is_exchanged on = exchange_done oi on
handle now as_lsdb oi is_loaded on = loading_done oi on
handle now as_lsdb oi is_adj_ok on = some (adj_ok oi on)
handle now as_lsdb oi is_mismatch on = seqnumber_mismatch oi on
handle now as_lsdb oi is_bad_lsreq on = bad_lsreq oi on
handle now as_lsdb oi is_oneway on = some (oneway_received oi on)
handle now as_lsdb oi is_inactive on = inactivity_timer oi on
