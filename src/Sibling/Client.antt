-- ===== src/Sibling/Client.antt =====
-- The connections to the controllers: ospf6-sibling/ctrl_client.c. A client is given by its place
-- in the list; a place that holds none stands for no client and changes nothing.
use harry.Base.{
  ℕ, ◌+◌, List, [], ◌∷◌, ◌++◌, Option, none, some, Bool, true, false, if◌then◌else◌, get_elem?, set,
  map, take, u32, head?, ◌>>=◌,
}
use harry.Message.{
  Rfpbuf, RfpType, hello, leader_elect, features_request, features_reply, redistribute_request,
  ipv4_route_add, ipv6_route_set_request, if_address_req, ipv4_address_add, ipv6_address_add,
  forward_ospf6, routeflow_alloc_xid, rfp10_version, header_size, htonl, htons, store_u16,
  store_u32, rh_type, rh_xid,
}
use harry.Sibling.State.{
  Sibling, CtrlClientState, ctrl_connecting, ctrl_sent_hello, ctrl_rcvd_hello, ctrl_interface_up,
  ctrl_lead_elect_rcvd, ctrl_connected, CtrlClient, StateUpdateReq, scg_ctrl_int_up_req,
  scg_ctrl_lead_elect_rcvd_req, Output, schedule_connected, unlock_first_xid, address_add,
  routes_reply, ospf6_receive, Process, Sisis, emit,
}
use harry.Sibling.State
use harry.Sibling.Election.{invalidate}
use harry.Sibling.Ctrl.{sibling_ctrl_update_state, fill_id, sent_on}

-- ctrl_client_new and ctrl_client_init.
unfoldable pub ctrl_client_init : ℕ → CtrlClient
ctrl_client_init hostnum = record {
  sock_open = false;
  current_xid = 0;
  fail = 0;
  state = ctrl_connecting;
  hostnum = hostnum;
}

unfoldable pub put_client : Process → ℕ → CtrlClient → Process
put_client p i k = record p { ctrl_clients = set p.ctrl_clients i k }

-- What ctrl_client_state_transition makes of the old and the requested state: the new state and
-- the report to the state machine. `none` is a bad state, which changes nothing.
unfoldable pub client_transition :
    CtrlClientState → CtrlClientState → Option (CtrlClientState × Option StateUpdateReq)
client_transition ctrl_rcvd_hello ctrl_interface_up =
    some (ctrl_interface_up, some scg_ctrl_int_up_req)
client_transition ctrl_lead_elect_rcvd ctrl_interface_up =
    some (ctrl_connected, some scg_ctrl_int_up_req)
client_transition _ ctrl_interface_up = none
client_transition ctrl_rcvd_hello ctrl_lead_elect_rcvd =
    some (ctrl_lead_elect_rcvd, some scg_ctrl_lead_elect_rcvd_req)
client_transition ctrl_interface_up ctrl_lead_elect_rcvd =
    some (ctrl_connected, some scg_ctrl_lead_elect_rcvd_req)
client_transition ctrl_connected ctrl_lead_elect_rcvd =
    some (ctrl_connected, some scg_ctrl_lead_elect_rcvd_req)
client_transition _ ctrl_lead_elect_rcvd = none
client_transition _ new = some (new, none)

unfoldable pub report : Option StateUpdateReq → Sisis → Process → Process
unfolding sibling_ctrl_update_state
report none env p = p
report (some req) env p = sibling_ctrl_update_state req env p

unfoldable pub apply_transition :
    Option (CtrlClientState × Option StateUpdateReq) → Sisis → Process → ℕ → CtrlClient → Process
unfolding report put_client
apply_transition none env p i k = p
apply_transition (some (new, req)) env p i k =
    report req env (put_client p i (record k { state = new }))

unfoldable pub ctrl_client_state_transition :
    Sisis → Process → ℕ → CtrlClient → CtrlClientState → Process
unfolding client_transition apply_transition
ctrl_client_state_transition env p i k new =
    apply_transition (client_transition k.state new) env p i k

-- A request that bears the client's transaction id, which is then increased.
abbrev pub next_xid : CtrlClient → CtrlClient
next_xid k = record k { current_xid = u32 (k.current_xid + 1) }

unfoldable pub header_msg : RfpType → CtrlClient → Rfpbuf
header_msg t k = routeflow_alloc_xid t rfp10_version (htonl k.current_xid) header_size

unfoldable pub send_numbered : Process → ℕ → CtrlClient → Rfpbuf → Process
unfolding put_client
send_numbered p i k msg = put_client (emit p (sent_on i k msg)) i (next_xid k)

-- ctrl_client_if_addr_req.
unfoldable pub ctrl_client_if_addr_req : Process → ℕ → CtrlClient → Process
unfolding send_numbered header_msg
ctrl_client_if_addr_req p i k = send_numbered p i k (header_msg if_address_req k)

-- ctrl_client_connected.
unfoldable pub ctrl_client_connected : Process → ℕ → CtrlClient → Process
unfolding send_numbered header_msg
ctrl_client_connected p i k =
    let p' = send_numbered p i k (header_msg features_request k) in
    send_numbered p' i (next_xid k) (header_msg redistribute_request (next_xid k))

-- ctrl_client_start, called by ctrl_client_connect, with the outcome of ctrl_client_socket.
unfoldable pub say_hello : Sisis → Process → ℕ → CtrlClient → Process
unfolding ctrl_client_state_transition put_client header_msg
say_hello env p i k =
    ctrl_client_state_transition env (emit (put_client p i k) (sent_on i k (header_msg hello k))) i
      k ctrl_sent_hello

unfoldable pub ctrl_client_start : Sisis → Process → ℕ → CtrlClient → Bool → Process
unfolding say_hello put_client
ctrl_client_start env p i k connected =
    if k.sock_open
    then p
    else if connected
    then say_hello env p i (record k { sock_open = true; fail = 0 })
    else put_client p i (record k { fail = k.fail + 1 })

-- The route of ctrl_client_route_set, with the result of ospf6_route_is_best.
pub record Route : Type 0 where
  pub best : Bool
  pub prefixlen : ℕ
  pub prefix : List ℕ
  pub ifindex : ℕ
  pub nexthop : List ℕ

abbrev pub ipv6_route_size : ℕ
ipv6_route_size = 48

-- struct rfp_ipv6_route: two bytes of padding follow the prefix length.
unfoldable pub route_msg : CtrlClient → Route → Rfpbuf
route_msg k r =
    take header_size (
      routeflow_alloc_xid ipv6_route_set_request rfp10_version (htonl k.current_xid)
        ipv6_route_size)
    ++ (store_u16 (htons r.prefixlen)
        ++ (0 ∷ 0 ∷ r.prefix ++ (store_u32 (htons r.ifindex) ++ r.nexthop)))

-- ctrl_client_route_set.
unfoldable pub ctrl_client_route_set : Process → ℕ → CtrlClient → Route → Process
unfolding send_numbered route_msg
ctrl_client_route_set p i k r = if r.best then send_numbered p i k (route_msg k r) else p

abbrev has_sent_hello : CtrlClientState → Bool
has_sent_hello ctrl_sent_hello = true
has_sent_hello _ = false

-- The case RFPT_FORWARD_OSPF6 of ctrl_client_read.
unfoldable pub receive_ospf6 : Process → ℕ → Rfpbuf → Process
receive_ospf6 p i msg =
    if p.restart_mode
    then record p {
      restart_msg_queue = p.restart_msg_queue ++ msg ∷ [];
      out = p.out ++ unlock_first_xid ∷ [];
    }
    else emit p (ospf6_receive i msg ∷ [])

-- The `switch` of ctrl_client_read, for a message that was read as a whole.
unfoldable pub receive : Option RfpType → Sisis → Process → ℕ → CtrlClient → Rfpbuf → Process
unfolding receive_ospf6 ctrl_client_state_transition ctrl_client_if_addr_req
receive (some hello) env p i k msg =
    emit
      (if has_sent_hello k.state then ctrl_client_state_transition env p i k ctrl_rcvd_hello else p)
      (schedule_connected i ∷ [])
receive (some leader_elect) env p i k msg =
    ctrl_client_state_transition env p i k ctrl_lead_elect_rcvd
receive (some features_reply) env p i k msg =
    ctrl_client_if_addr_req (emit p (State.features_reply i msg ∷ [])) i k
receive (some ipv4_address_add) env p i k msg = emit p (address_add i msg ∷ [])
receive (some ipv6_address_add) env p i k msg = emit p (address_add i msg ∷ [])
receive (some ipv4_route_add) env p i k msg = emit p (routes_reply i msg ∷ [])
receive (some forward_ospf6) env p i k msg = receive_ospf6 p i msg
receive _ env p i k msg = p

abbrev pub at_xid : ℕ → CtrlClient → CtrlClient
at_xid xid k = record k { current_xid = xid }

-- synchronize_current_xid, with the number that the data base holds.
unfoldable pub synchronize_current_xid : Process → ℕ → Process
synchronize_current_xid p xid = record p { ctrl_clients = map (at_xid xid) p.ctrl_clients }

-- sibling_ctrl_first_xid_rcvd. The front of an empty queue is the queue's own node, never NULL, so
-- that the code then reads a message where there is none.
unfoldable pub sibling_ctrl_first_xid_rcvd : Process → Option ℕ
sibling_ctrl_first_xid_rcvd p = head? p.restart_msg_queue >>= λ msg. some (rh_xid msg)

-- What can happen to the process, on the way of the messages and of the elections.
pub data Event : Type 0 where
  starts : ℕ → Bool → Event
  connects : ℕ → Event
  reads : ℕ → Rfpbuf → Event
  interface_comes_up : ℕ → Event
  sets_route : ℕ → Route → Event
  hears : ℕ → Bool → ℕ → Event
  loses : ℕ → Event
  synchronizes : ℕ → Event

unfoldable pub on_client : Process → ℕ → (CtrlClient → Process) → Process
on_client p i f = elim (get_elem? p.ctrl_clients i) [ none ↦ p | some k ↦ f k ]

unfoldable pub step : Sisis → Process → Event → Process
unfolding on_client ctrl_client_start ctrl_client_connected receive ctrl_client_state_transition
    ctrl_client_route_set fill_id invalidate synchronize_current_xid
step env p (starts i connected) = on_client p i λ k. ctrl_client_start env p i k connected
step env p (connects i) = on_client p i λ k. ctrl_client_connected p i k
step env p (reads i msg) = on_client p i λ k. receive (rh_type msg) env p i k msg
step env p (interface_comes_up i) =
    on_client p i λ k. ctrl_client_state_transition env p i k ctrl_interface_up
step env p (sets_route i r) = on_client p i λ k. ctrl_client_route_set p i k r
step env p (hears addr leads id) = fill_id p addr leads id
step env p (loses addr) = record p { replicas = invalidate addr p.replicas }
step env p (synchronizes xid) = synchronize_current_xid p xid

unfoldable pub history : Sisis → Process → List Event → Process
history env p [] = p
history env p (e ∷ es) = history env (step env p e) es
