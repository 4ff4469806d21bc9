-- ===== src/Ospf/Update.antt =====
-- The receipt of LSAs (ospf6_lsupdate_recv of ospf6-sibling/ospf6_message.c), and of any packet
-- (ospf6_receive). `none` is a failed assertion, or an interface that is not there.
use harry.Base.{
  ℕ, zero, suc, ◌+◌, ◌-◌, ◌/◌, Bool, false, not, ◌||◌, List, [], ◌∷◌, ◌++◌, Option, none, some, ltb,
  leb, ◌==◌, if◌then◌else◌, ◌>>=◌,
}
use harry.Message.{Rfpbuf}
use harry.Database.Riak.{Riak}
use harry.Database.Checkpoint.{Ospf6}
use harry.Ospf.State.{
  exchange, loading, full, is_state, Neighbor, Interface, Task, lsreq_send, Top, IfPlace, Sender,
}
use harry.Ospf.Neighbor.{ospf6_neighbor_lookup}
use harry.Ospf.Hello.{Heard, sender, ospf6_hello_recv}
use harry.Ospf.Receive.{interface_at, set_interface, ospf6_receive_lsa}
use harry.Ospf.Packet.{oh_type, message_end, ospf6_lsa_create, lsa_size, lsa_number, lsupdate_end}
use harry.Ospf.Describe.{ospf6_dbdesc_recv}
use harry.Ospf.Request.{ospf6_lsreq_recv}

-- Whether the loop over the LSAs stops at an offset, with `num` LSAs still announced.
unfoldable pub stops_at : Rfpbuf → ℕ → ℕ → Bool
stops_at msg num p =
    leb (message_end msg) p
    || ltb (message_end msg) (p + lsa_size msg p)
    || num == 0
    || ltb (lsa_size msg p) 20

-- The offsets of the LSAs that the loop hands on. Each round moves by 20 bytes or more, so that the
-- length of the packet is fuel enough.
unfoldable pub lsas_from : ℕ → Rfpbuf → ℕ → ℕ → List ℕ
unfolding stops_at
lsas_from zero msg num p = []
lsas_from (suc fuel) msg num p =
    let rest = lsas_from fuel msg (num - 1) (p + lsa_size msg p) in
    if stops_at msg num p then [] else p ∷ rest

unfoldable pub lsas_of : Rfpbuf → List ℕ
unfolding lsas_from
lsas_of msg = lsas_from (message_end msg) msg (lsa_number msg) lsupdate_end

-- The LSAs, each received in the state that those before it leave.
unfoldable pub receive_each :
    ℕ → ℕ → Bool → Rfpbuf → List ℕ → Sender → Top → Option (Top × List Task)
unfolding ospf6_lsa_create ospf6_receive_lsa
receive_each time junk no_value msg [] from top = some (top, [])
receive_each time junk no_value msg (p ∷ ps) from top =
    ospf6_receive_lsa time junk no_value (ospf6_lsa_create (time / 1000000) msg p) from top
    >>= λ one.
        receive_each time junk no_value msg ps from one.0 >>= λ more. some (more.0, one.1 ++ more.1)

unfoldable pub is_exchanging : Neighbor → Bool
is_exchanging on = is_state on.state exchange || is_state on.state loading

unfoldable pub take_lsupdate :
    ℕ → ℕ → Bool → Rfpbuf → Sender → Neighbor → Top → Option (Top × List Task)
unfolding lsas_of receive_each is_exchanging
take_lsupdate time junk no_value msg from on top =
    receive_each time junk no_value msg (lsas_of msg) from top >>= λ r.
    some (r.0, r.1 ++ (if is_exchanging on then lsreq_send ∷ [] else []))

-- ospf6_lsupdate_recv on the interface at a place. The state of the neighbor is the same before and
-- after its LSAs: events are only scheduled.
unfoldable pub ospf6_lsupdate_recv :
    ℕ → ℕ → Bool → Rfpbuf → IfPlace → Top → Option (Top × List Task)
unfolding interface_at ospf6_neighbor_lookup take_lsupdate is_exchanging
ospf6_lsupdate_recv time junk no_value msg at top = interface_at at top >>= λ oi.
    elim (ospf6_neighbor_lookup (sender msg) oi.neighbor_list) [
      | none ↦ some (top, [])
      | some on ↦
          let from : Sender = record { at = at; router_id = sender msg } in
          if not (is_exchanging on || is_state on.state full)
          then some (top, [])
          else take_lsupdate time junk no_value msg from on top
    ]

-- What a packet changes.
pub record Taken (S : Type 0) : Type 0 where
  pub data_base : S
  pub top : Top
  pub tasks : List Task
  pub acked : Bool

-- struct ctrl_client and the variables that the receipt of a packet reads: the state of the process,
-- its id among the replicas, the hello interval, and whether messages are debugged.
pub record Settings : Type 0 where
  pub ospf6 : Ospf6
  pub id : ℕ
  pub hello_interval : ℕ
  pub debug : Bool

pub data MessageType : Type 0 where
  hello_message dbdesc_message lsreq_message lsupdate_message other_message : MessageType

-- LSAcks are not looked at.
unfoldable pub message_type : Rfpbuf → MessageType
message_type msg =
    if oh_type msg == 1
    then hello_message
    else if oh_type msg == 2
    then dbdesc_message
    else if oh_type msg == 3
    then lsreq_message
    else if oh_type msg == 4
    then lsupdate_message
    else other_message

module _ {S : Type 0} (db : Riak S) where
  -- A handler of a packet that is given the interface, or the whole process.
  unfoldable pub at_interface : IfPlace → Top → Heard S → Option (Taken S)
  unfolding set_interface
  at_interface at top h = set_interface at h.interface top >>= λ top'.
      some (record { data_base = h.data_base; top = top'; tasks = h.tasks; acked = h.acked })

  unfoldable pub at_top : S → Top × List Task → Option (Taken S)
  at_top s r = some (record { data_base = s; top = r.0; tasks = r.1; acked = false })

  unfoldable pub by_type :
      ℕ
      → ℕ
      → Bool
      → S
      → Settings
      → Rfpbuf
      → ℕ
      → IfPlace
      → Interface
      → Top
      → MessageType
      → Option (Taken S)
  unfolding ospf6_hello_recv ospf6_dbdesc_recv ospf6_lsreq_recv ospf6_lsupdate_recv at_interface
      at_top set_interface
  by_type time junk no_value s c msg xid at oi top hello_message =
      ospf6_hello_recv db s c.ospf6 c.id top.router_id c.hello_interval oi msg xid >>= λ h.
      at_interface at top h
  by_type time junk no_value s c msg xid at oi top dbdesc_message =
      ospf6_dbdesc_recv db c.debug s c.ospf6 c.id top.router_id (time / 1000000) top.lsdb oi msg xid
      >>= λ h. at_interface at top h
  by_type time junk no_value s c msg xid at oi top lsreq_message =
      ospf6_lsreq_recv (time / 1000000) oi msg >>= λ r.
      set_interface at r.0 top >>= λ top'. at_top s (top', r.1)
  by_type time junk no_value s c msg xid at oi top lsupdate_message =
      ospf6_lsupdate_recv time junk no_value msg at top >>= λ r. at_top s r
  by_type time junk no_value s c msg xid at oi top other_message = at_top s (top, [])

  -- ospf6_receive.
  unfoldable pub ospf6_receive :
      ℕ → ℕ → Bool → S → Settings → Rfpbuf → ℕ → IfPlace → Top → Option (Taken S)
  unfolding interface_at by_type message_type
  ospf6_receive time junk no_value s c msg xid at top = interface_at at top >>= λ oi.
      by_type time junk no_value s c msg xid at oi top (message_type msg)
