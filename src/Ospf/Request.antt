-- ===== src/Ospf/Request.antt =====
-- The receipt of a request for LSAs (ospf6_lsreq_recv of ospf6-sibling/ospf6_message.c). `none` is a
-- failed assertion.
use harry.Base.{ℕ, Bool, true, false, List, [], ◌∷◌, if◌then◌else◌, Option, none, some, ◌>>=◌}
use harry.Message.{Rfpbuf}
use harry.Database.Json.{records, header_end}
use harry.Ospf.Lsa.{Lsa}
use harry.Ospf.Lsdb.{Lsdb, ospf6_lsdb_lookup}
use harry.Ospf.State.{Neighbor, Interface, Task, lsupdate_send, bad_lsreq_event}
use harry.Ospf.Neighbor.{ospf6_neighbor_lookup}
use harry.Ospf.Hello.{sender, write_neighbor}
use harry.Ospf.Flood.{Scope, linklocal, area_scope, as_scope, reserved, scope_of, with_copy}
use harry.Ospf.Packet.{lsreq_entry_size, entry_type, entry_id, entry_adv_router}

-- `lsdb` after the switch on the scope of an entry: that of the interface, or for the scopes that are
-- not implemented what it was before.
unfoldable pub chosen : Scope → Lsdb → Option Lsdb → Option Lsdb
chosen linklocal if_lsdb last = some if_lsdb
chosen area_scope if_lsdb last = last
chosen as_scope if_lsdb last = last
chosen reserved if_lsdb last = last

unfoldable pub is_skipped : Scope → Bool
is_skipped reserved = true
is_skipped linklocal = false
is_skipped area_scope = false
is_skipped as_scope = false

unfoldable pub find_entry : Rfpbuf → ℕ → Option Lsdb → Option Lsa
unfolding ospf6_lsdb_lookup
find_entry msg p none = none
find_entry msg p (some db) =
    ospf6_lsdb_lookup (entry_type msg p) (entry_id msg p) (entry_adv_router msg p) db

-- What an entry comes to.
pub data Entry : Type 0 where
  skipped missing : Entry
  found : Lsa → Entry

abbrev pub found_or_missing : Option Lsa → Entry
found_or_missing none = missing
found_or_missing (some lsa) = found lsa

unfoldable pub entry_at : Rfpbuf → ℕ → Option Lsdb → Entry
unfolding is_skipped scope_of find_entry
entry_at msg p lsdb =
    if is_skipped (scope_of (entry_type msg p))
    then skipped
    else found_or_missing (find_entry msg p lsdb)

-- A round of the loop over the entries, before the rounds that follow it.
unfoldable pub serve_entry : ℕ → Entry → Lsdb → (Lsdb → Option (Lsdb × Bool)) → Option (Lsdb × Bool)
unfolding with_copy
serve_entry now skipped updates rest = rest updates
serve_entry now missing updates rest = some (updates, false)
serve_entry now (found lsa) updates rest = with_copy now lsa updates >>= rest

-- The loop: what is to be sent, and whether every LSA that is requested was found.
unfoldable pub serve : ℕ → Lsdb → Rfpbuf → List ℕ → Option Lsdb → Lsdb → Option (Lsdb × Bool)
unfolding scope_of chosen entry_at serve_entry
serve now if_lsdb msg [] last updates = some (updates, true)
serve now if_lsdb msg (p ∷ ps) last updates =
    let lsdb = chosen (scope_of (entry_type msg p)) if_lsdb last in
    serve_entry now (entry_at msg p lsdb) updates (λ more. serve now if_lsdb msg ps lsdb more)

unfoldable pub requests_of : Rfpbuf → List ℕ
unfolding records
requests_of msg = records lsreq_entry_size header_end msg

abbrev pub answer : ℕ → Bool → List Task
answer router_id true = lsupdate_send router_id ∷ []
answer router_id false = bad_lsreq_event router_id ∷ []

-- A request from a neighbor.
unfoldable pub take_lsreq : ℕ → Interface → Rfpbuf → Neighbor → Option (Interface × List Task)
unfolding serve requests_of write_neighbor
take_lsreq now oi msg on = serve now oi.lsdb msg (requests_of msg) none on.lsupdate_list >>= λ r.
    some (
      record oi {
        neighbor_list = write_neighbor (record on { lsupdate_list = r.0 }) oi.neighbor_list;
      },
      answer on.router_id r.1,
    )

unfoldable pub from_neighbor :
    ℕ → Interface → Rfpbuf → Option Neighbor → Option (Interface × List Task)
unfolding take_lsreq
from_neighbor now oi msg none = some (oi, [])
from_neighbor now oi msg (some on) = take_lsreq now oi msg on

unfoldable pub ospf6_lsreq_recv : ℕ → Interface → Rfpbuf → Option (Interface × List Task)
unfolding ospf6_neighbor_lookup from_neighbor
ospf6_lsreq_recv now oi msg =
    from_neighbor now oi msg (ospf6_neighbor_lookup (sender msg) oi.neighbor_list)
