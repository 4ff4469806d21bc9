-- ===== src/Ospf/Describe.antt =====
-- The receipt of a data base description (ospf6_dbdesc_recv of ospf6-sibling/ospf6_message.c).
-- `none` is a failed assertion, the use of an LSA that is freed, or the overflow of a buffer in
-- ospf6_db_put_dbdesc.
use harry.Base.{
  ℕ, ◌+◌, Bool, true, false, not, ◌&&◌, List, [], ◌∷◌, ◌++◌, Option, none, some, ltb, ◌==◌,
  if◌then◌else◌, ◌>>=◌, u32,
}
use harry.Message.{Rfpbuf, memcmp_eq}
use harry.Database.Riak.{Riak}
use harry.Database.Json.{records, dbdesc_end, lsa_header_size}
use harry.Database.Checkpoint.{Ospf6, checkpoints, ospf6_db_put_dbdesc}
use harry.Ospf.Lsa.{Lsa, ospf6_lsa_compare}
use harry.Ospf.Lsdb.{Lsdb, ospf6_lsdb_add}
use harry.Ospf.State.{
  NeighborState, down, attempt, init, twoway, exstart, exchange, loading, full, is_state, Neighbor,
  Interface, Task, dbdesc_send, cancel_dbdesc_send, dbdesc_send_newone, lsreq_unless_pending,
  seqnumber_mismatch_event,
}
use harry.Ospf.Neighbor.{twoway_received, negotiation_done, ospf6_neighbor_lookup}
use harry.Ospf.Hello.{Heard, sender, write_neighbor}
use harry.Ospf.Flood.{Scope, linklocal, area_scope, as_scope, reserved, scope_of, listed}
use harry.Ospf.Receive.{is_newer}
use harry.Ospf.Packet.{
  message_end, ospf6_lsa_create_headeronly, dbdesc_bytes, dbdesc_options, dbdesc_ifmtu, has_msbit,
  has_mbit, has_ibit, dbdesc_seqnum_of,
}

-- The neighbor after the switch on its state, and whether the LSA headers are then processed.
pub record Stage : Type 0 where
  pub goes_on : Bool
  pub neighbor : Neighbor
  pub tasks : List Task

abbrev pub stop : Neighbor → List Task → Option Stage
stop on tasks = some (record { goes_on = false; neighbor = on; tasks = tasks })

-- OSPF6_NEIGHBOR_EXSTART: whether the neighbor says that it is the master.
unfoldable pub is_negotiation : Rfpbuf → Bool
is_negotiation msg = has_ibit msg && has_mbit msg && has_msbit msg && message_end msg == dbdesc_end

abbrev pub as_slave : Rfpbuf → Neighbor → Neighbor
as_slave msg on = record on {
  dbdesc_bits = record on.dbdesc_bits { msbit = false };
  dbdesc_seqnum = dbdesc_seqnum_of msg;
}

unfoldable pub in_exstart : ℕ → Lsdb → Interface → Rfpbuf → Neighbor → Option Stage
unfolding is_negotiation negotiation_done dbdesc_options
in_exstart now as_lsdb oi msg on =
    if is_negotiation msg
    then (negotiation_done now as_lsdb oi (as_slave msg on) >>= λ r. some (record {
      goes_on = true;
      neighbor = record r.0 { options = dbdesc_options msg };
      tasks = r.1;
    }))
    else stop on []

unfoldable pub is_duplicate : Rfpbuf → Neighbor → Bool
unfolding memcmp_eq dbdesc_bytes
is_duplicate msg on = memcmp_eq (dbdesc_bytes msg) on.dbdesc_last

-- Whether the master's bits, options and sequence number are those expected next.
unfoldable pub is_next : Rfpbuf → Neighbor → Bool
unfolding memcmp_eq dbdesc_options
is_next msg on =
    has_msbit msg
    && not (has_ibit msg)
    && memcmp_eq on.options (dbdesc_options msg)
    && dbdesc_seqnum_of msg == u32 (on.dbdesc_seqnum + 1)

abbrev pub resend : List Task
resend = cancel_dbdesc_send ∷ dbdesc_send ∷ []

unfoldable pub in_exchange : Rfpbuf → Neighbor → Option Stage
unfolding is_duplicate is_next
in_exchange msg on =
    if is_duplicate msg on
    then stop on resend
    else if is_next msg on
    then some (record { goes_on = true; neighbor = on; tasks = [] })
    else stop on (seqnumber_mismatch_event ∷ [])

unfoldable pub after_exchange : Rfpbuf → Neighbor → Option Stage
unfolding is_duplicate
after_exchange msg on =
    if is_duplicate msg on then stop on resend else stop on (seqnumber_mismatch_event ∷ [])

-- OSPF6_NEIGHBOR_INIT, which may fall through to OSPF6_NEIGHBOR_EXSTART.
unfoldable pub in_init : ℕ → Lsdb → Interface → Rfpbuf → Neighbor → Option Stage
unfolding twoway_received in_exstart
in_init now as_lsdb oi msg on =
    let heard = twoway_received oi on in
    let fallen = in_exstart now as_lsdb oi msg heard.0 >>= λ s.
    some (record s { tasks = heard.1 ++ s.tasks }) in
    if not (is_state heard.0.state exstart) then stop heard.0 heard.1 else fallen

unfoldable pub by_state : ℕ → Lsdb → Interface → Rfpbuf → Neighbor → NeighborState → Option Stage
unfolding in_init in_exstart in_exchange after_exchange
by_state now as_lsdb oi msg on down = stop on []
by_state now as_lsdb oi msg on attempt = stop on []
by_state now as_lsdb oi msg on init = in_init now as_lsdb oi msg on
by_state now as_lsdb oi msg on twoway = stop on []
by_state now as_lsdb oi msg on exstart = in_exstart now as_lsdb oi msg on
by_state now as_lsdb oi msg on exchange = in_exchange msg on
by_state now as_lsdb oi msg on loading = after_exchange msg on
by_state now as_lsdb oi msg on full = after_exchange msg on

-- The copy of an LSA in the data bases of the interface and of the process. The one of the area is
-- not implemented, so that the pointer is NULL.
unfoldable pub known : Scope → Lsdb → Lsdb → Lsa → Option Lsa
known linklocal if_lsdb as_lsdb his = listed his if_lsdb
known area_scope if_lsdb as_lsdb his = none
known as_scope if_lsdb as_lsdb his = listed his as_lsdb
known reserved if_lsdb as_lsdb his = none

-- Whether a described LSA is requested.
unfoldable pub is_wanted : ℕ → Lsa → Option Lsa → Option Bool
unfolding ospf6_lsa_compare
is_wanted now his none = some true
is_wanted now his (some mine) = ospf6_lsa_compare now his mine >>= λ c. some (is_newer c.0)

unfoldable pub requested : ℕ → Lsa → Bool → Lsdb → Option Lsdb
unfolding ospf6_lsdb_add
requested now his true requests = ospf6_lsdb_add now his requests >>= λ r. some r.0
requested now his false requests = some requests

-- An LSA of a reserved scope is freed, and then used.
unfoldable pub is_freed : Scope → Bool
is_freed reserved = true
is_freed linklocal = false
is_freed area_scope = false
is_freed as_scope = false

unfoldable pub process_header : ℕ → Lsdb → Lsdb → Lsa → Lsdb → Option Lsdb
unfolding scope_of known is_wanted requested is_freed
process_header now if_lsdb as_lsdb his requests =
    let scope = scope_of his.lsa_type in
    let done =
      is_wanted now his (known scope if_lsdb as_lsdb his) >>= λ w. requested now his w requests in
    if is_freed scope then none else done

unfoldable pub process_headers : ℕ → Lsdb → Lsdb → Rfpbuf → List ℕ → Lsdb → Option Lsdb
unfolding process_header ospf6_lsa_create_headeronly
process_headers now if_lsdb as_lsdb msg [] requests = some requests
process_headers now if_lsdb as_lsdb msg (p ∷ ps) requests =
    process_header now if_lsdb as_lsdb (ospf6_lsa_create_headeronly now msg p) requests >>= λ next.
    process_headers now if_lsdb as_lsdb msg ps next

-- What follows the switch: the LSA headers, the master's sequence number, and what is sent next.
unfoldable pub process_dbdesc :
    ℕ → Lsdb → Interface → Rfpbuf → Stage → Option (Neighbor × List Task)
unfolding process_headers records dbdesc_bytes
process_dbdesc now as_lsdb oi msg s =
    process_headers now oi.lsdb as_lsdb msg (records lsa_header_size dbdesc_end msg)
      s.neighbor.request_list
    >>= λ requests. some (
      record s.neighbor {
        request_list = requests;
        dbdesc_seqnum = dbdesc_seqnum_of msg;
        dbdesc_last = dbdesc_bytes msg;
      },
      s.tasks ++ lsreq_unless_pending ∷ cancel_dbdesc_send ∷ dbdesc_send_newone ∷ [],
    )

unfoldable pub finish : ℕ → Lsdb → Interface → Rfpbuf → Stage → Option (Neighbor × List Task)
unfolding process_dbdesc
finish now as_lsdb oi msg s =
    let rest = process_dbdesc now as_lsdb oi msg s in
    if s.goes_on then rest else some (s.neighbor, s.tasks)

unfoldable pub ospf6_dbdesc_recv_slave :
    ℕ → Lsdb → Interface → Rfpbuf → Neighbor → Option (Neighbor × List Task)
unfolding by_state finish
ospf6_dbdesc_recv_slave now as_lsdb oi msg on =
    by_state now as_lsdb oi msg on on.state >>= finish now as_lsdb oi msg

-- ospf6_dbdesc_recv_master, which does nothing, or ospf6_dbdesc_recv_slave.
unfoldable pub by_role :
    ℕ → ℕ → Lsdb → Interface → Rfpbuf → Neighbor → Option (Neighbor × List Task)
unfolding ospf6_dbdesc_recv_slave
by_role now router_id as_lsdb oi msg on =
    let slave = ospf6_dbdesc_recv_slave now as_lsdb oi msg on in
    if ltb router_id (sender msg) then slave else some (on, [])

module _ {S : Type 0} (db : Riak S) where
  unfoldable pub checkpointed_dbdesc : S → Ospf6 → ℕ → Rfpbuf → ℕ → Option S
  unfolding checkpoints ospf6_db_put_dbdesc
  checkpointed_dbdesc s o id msg xid =
      if checkpoints o then ospf6_db_put_dbdesc db s id msg xid else some s

  -- A description from a neighbor.
  unfoldable pub take_dbdesc :
      S → Ospf6 → ℕ → ℕ → ℕ → Lsdb → Interface → Rfpbuf → ℕ → Neighbor → Option (Heard S)
  unfolding by_role checkpointed_dbdesc write_neighbor
  take_dbdesc s o id router_id now as_lsdb oi msg xid on =
      by_role now router_id as_lsdb oi msg on >>= λ r.
      checkpointed_dbdesc s o id msg xid >>= λ after. some (record {
        data_base = after;
        interface = record oi { neighbor_list = write_neighbor r.0 oi.neighbor_list };
        tasks = r.1;
        acked = not o.restart_mode;
      })

  -- ospf6_dbdesc_recv at a replica with an id and a router id. Packets of another MTU are ignored
  -- only where messages are debugged.
  unfoldable pub ospf6_dbdesc_recv :
      Bool → S → Ospf6 → ℕ → ℕ → ℕ → Lsdb → Interface → Rfpbuf → ℕ → Option (Heard S)
  unfolding ospf6_neighbor_lookup take_dbdesc
  ospf6_dbdesc_recv debug s o id router_id now as_lsdb oi msg xid =
      let ignored : Heard S = record { data_base = s; interface = oi; tasks = []; acked = false } in
      elim (ospf6_neighbor_lookup (sender msg) oi.neighbor_list) [
        | none ↦ some ignored
        | some on ↦
            if not (dbdesc_ifmtu msg == oi.ifmtu) && debug
            then some ignored
            else take_dbdesc s o id router_id now as_lsdb oi msg xid on
      ]
