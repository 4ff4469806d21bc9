-- ===== src/Tests.antt =====
-- The theorems on messages and on the handshake at concrete messages, clients and siblings.
use harry.Base.{◌≡◌, refl, ◌↔◌, [], ◌∷◌, ◌++◌, none, some, true, false, arith, map}
use harry.Message.{
  Rfpbuf, forward_ospf6, rfpbuf_equal, routeflow_alloc_xid, htonl, rh_type, rh_xid, rh_length,
}
use harry.Message.Laws.{rfpbuf_equal_iff, header_roundtrip}
use harry.Controller.State.{
  SibRouter, connected, routing, voter_all, ospf6_sib, Controller, get_sib,
}
use harry.Controller.Life.{process_msgs, msgs_per_run}
use harry.Sibling.State.{CtrlClient, ctrl_rcvd_hello, ctrl_send, Process, sc_init}
use harry.Handshake.{requests, send_requests, StandsAt, handshake}

abbrev left : Rfpbuf
left = 1 ∷ 2 ∷ []

abbrev right : Rfpbuf
right = 1 ∷ 3 ∷ []

rfpbuf_equal_iff_example : (rfpbuf_equal left right ≡ true) ↔ (left ≡ right)
rfpbuf_equal_iff_example = rfpbuf_equal_iff left right

header_roundtrip_example :
    let msg = routeflow_alloc_xid forward_ospf6 1 (htonl 66051) 300 in
    (rh_type msg ≡ some forward_ospf6) × (rh_xid msg ≡ 66051) × (rh_length msg ≡ 300)
header_roundtrip_example = header_roundtrip forward_ospf6 1 66051 300 (omega arith) (omega arith)

-- Both sides are at the last transaction id before the counter wraps around.
abbrev client : CtrlClient
client = record {
  sock_open = true;
  current_xid = 4294967295;
  fail = 0;
  state = ctrl_rcvd_hello;
  hostnum = 0;
}

abbrev process : Process
process = record {
  own_replica = record { sibling_addr = 1; leader = false; valid = true; id_valid = true; id = 7 };
  replicas = [];
  ctrl_clients = client ∷ [];
  sc_state = sc_init;
  scheduled_hellos = false;
  restart_mode = false;
  restarted_first_egress_not_sent = false;
  restart_msg_queue = [];
  debug_replica = true;
  out = [];
}

abbrev sibling : SibRouter
sibling = record {
  state = connected;
  current_ingress_xid = 0;
  current_ingress_ack_rcvd = false;
  current_egress_xid = 4294967295;
  waiting_on_first_egress_msg = false;
  msgs_rcvd_queue = [];
  is_leader = false;
}

abbrev controller : Controller
controller = record {
  ospf6_siblings = sibling ∷ [];
  bgp_siblings = [];
  n_ospf6_siblings_routing = 0;
  leader_sibling = none;
  num_sibs_conf = 1;
  voter_type_conf = voter_all;
  routers = record { port_list = [] } ∷ [];
  rib = [];
  out = [];
}

handshake_example :
    ((send_requests process 0 client).out ≡ [] ++ map (ctrl_send 0) (requests client))
    × ((c' : Controller) × (process_msgs msgs_per_run controller (ospf6_sib 0) (requests client)
          ≡ some c')
        × StandsAt c' (ospf6_sib 0) routing 2 1)
unfolding get_sib
handshake_example =
    handshake process 0 client controller (ospf6_sib 0) sibling refl (omega arith) refl refl refl
