-- ===== src/Controller/Transition.antt =====
-- The replies of controller/sib_router.c and its state_transition.
use harry.Base.{ℕ, suc, ◌+◌, ◌-◌, List, [], ◌∷◌, ◌++◌, Bool, true, false, ◌||◌, ◌==◌, if◌then◌else◌}
use harry.Message.{routeflow_alloc_xid, rfp10_version, header_size, leader_elect}
use harry.Controller.State.{
  SibRouterState, features_redis_req_rcvd, features_addr_req_rcvd, routing, disconnected, SibRouter,
  SibId, ospf6_sib, Address, Interface, Router, Route, Output, sib_send, send_features,
  send_address, send_route, Controller, put_sib, emit,
}

-- The message to the sibling of index `i`. The transaction id is stored without htonl.
abbrev pub leader_elect_msg : ℕ → SibRouter → Output
leader_elect_msg i s =
    sib_send (ospf6_sib i)
      (routeflow_alloc_xid leader_elect rfp10_version s.current_ingress_xid header_size)

-- sib_router_send_leader_elect: one message to each OSPF6 sibling, from index `i` on.
unfoldable pub leader_elect_msgs : ℕ → List SibRouter → List Output
leader_elect_msgs i [] = []
leader_elect_msgs i (s ∷ ss) = leader_elect_msg i s ∷ leader_elect_msgs (suc i) ss

unfoldable pub send_leader_elect : Controller → Controller
send_leader_elect c = emit c (leader_elect_msgs 0 c.ospf6_siblings)

-- sib_router_send_features_reply: one buffer serves all routers, and is sent after each with the
-- ports of all routers so far.
unfoldable pub features_replies : SibId → ℕ → List Interface → List Router → List Output
features_replies id xid ports [] = []
features_replies id xid ports (r ∷ rs) =
    send_features id xid (ports ++ r.port_list) ∷ features_replies id xid (ports ++ r.port_list) rs

abbrev pub af_inet : ℕ
af_inet = 2

abbrev pub af_inet6 : ℕ
af_inet6 = 10

-- sib_router_send_address_reply for the addresses of one interface.
unfoldable pub interface_addresses : SibId → ℕ → ℕ → List Address → List Output
interface_addresses id xid ifindex [] = []
interface_addresses id xid ifindex (a ∷ as') =
    if a.family == af_inet || a.family == af_inet6
    then send_address id xid ifindex a ∷ interface_addresses id xid ifindex as'
    else interface_addresses id xid ifindex as'

unfoldable pub port_addresses : SibId → ℕ → List Interface → List Output
unfolding interface_addresses
port_addresses id xid [] = []
port_addresses id xid (p ∷ ps) =
    interface_addresses id xid p.ifindex p.connected ++ port_addresses id xid ps

-- sib_router_if_addr_add.
unfoldable pub if_addr_add : SibId → ℕ → List Router → List Output
unfolding port_addresses
if_addr_add id xid [] = []
if_addr_add id xid (r ∷ rs) = port_addresses id xid r.port_list ++ if_addr_add id xid rs

abbrev pub distance_infinity : ℕ
distance_infinity = 255

-- sib_router_redistribute over the entries of the unicast table, in the table's order.
unfoldable pub redistribute : SibId → ℕ → List Route → List Output
redistribute id xid [] = []
redistribute id xid (r ∷ rs) =
    if r.distance == distance_infinity
    then redistribute id xid rs
    else send_route id xid r.dest ∷ redistribute id xid rs

-- The two tests of state_transition.
abbrev pub enters_routing : SibRouterState → SibRouterState → Bool
enters_routing features_redis_req_rcvd routing = true
enters_routing features_addr_req_rcvd routing = true
enters_routing _ _ = false

abbrev pub leaves_routing : SibRouterState → SibRouterState → Bool
leaves_routing routing disconnected = true
leaves_routing _ _ = false

-- The counter after the transition. It is positive where it falls (Controller.Invariant).
abbrev pub next_count : SibRouterState → SibRouterState → ℕ → ℕ
next_count old new n =
    if enters_routing old new then n + 1 else if leaves_routing old new then n - 1 else n

abbrev pub moved : SibRouter → SibRouterState → SibRouter
moved sr new = record sr {
  state = new;
  waiting_on_first_egress_msg =
      if enters_routing sr.state new then true else sr.waiting_on_first_egress_msg;
}

-- state_transition on a sibling that stands in its array, where `sr` is its content.
unfoldable pub state_transition : Controller → SibId → SibRouter → SibRouterState → Controller
unfolding put_sib send_leader_elect leader_elect_msgs
state_transition c id sr new =
    let c' = record (put_sib c id (moved sr new)) {
      n_ospf6_siblings_routing = next_count sr.state new c.n_ospf6_siblings_routing;
    } in
    if c'.n_ospf6_siblings_routing == c.num_sibs_conf then send_leader_elect c' else c'
