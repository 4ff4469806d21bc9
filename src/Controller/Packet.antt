-- ===== src/Controller/Packet.antt =====
-- sib_router_process_packet of controller/sib_router.c.
use harry.Base.{
  ℕ, ◌+◌, [], ◌∷◌, ◌++◌, Option, none, some, Bool, true, false, ◌&&◌, ◌==◌, ltb, if◌then◌else◌,
  length, get_or, u32, ◌>>=◌,
}
use harry.Message.{
  Rfpbuf, RfpType, ack, features_request, redistribute_request, ipv6_route_set_request,
  if_address_req, forward_ospf6, forward_bgp, redistribute_leader_elect, rh_type, rh_xid,
  header_size,
}
use harry.Controller.State.{
  SibRouterState, connected, features_req_rcvd, redistribute_req_rcvd, features_redis_req_rcvd,
  features_addr_req_rcvd, routing, SibRouter, SibId, Controller, get_sib, put_sib, emit,
  is_disconnected,
}
use harry.Controller.Transition.{features_replies, if_addr_add, redistribute, state_transition}
use harry.Controller.Vote.{majority_have_msg_rcvd, vote_majority, forward_all}

-- The state after a request that was in order; `none` where the guard refuses it.
abbrev pub after_features : SibRouterState → Option SibRouterState
after_features connected = some features_req_rcvd
after_features redistribute_req_rcvd = some features_redis_req_rcvd
after_features _ = none

abbrev pub after_redistribute : SibRouterState → Option SibRouterState
after_redistribute connected = some redistribute_req_rcvd
after_redistribute features_req_rcvd = some features_redis_req_rcvd
after_redistribute features_addr_req_rcvd = some routing
after_redistribute _ = none

-- The guard of the address request is true in every state; `none` is then no transition.
abbrev pub after_if_address : SibRouterState → Option SibRouterState
after_if_address features_req_rcvd = some features_addr_req_rcvd
after_if_address features_redis_req_rcvd = some routing
after_if_address _ = none

abbrev pub next_egress : SibRouter → SibRouter
next_egress sr = record sr { current_egress_xid = u32 (sr.current_egress_xid + 1) }

abbrev pub transit : Option SibRouterState → Controller → SibId → SibRouter → Controller
transit none c id sr = put_sib c id sr
transit (some new) c id sr = state_transition c id sr new

-- RFPT_FEATURES_REQUEST.
unfoldable pub grant_features :
    Option SibRouterState → Controller → SibId → SibRouter → ℕ → Controller
grant_features none c id sr xid = c
grant_features (some new) c id sr xid =
    state_transition (emit c (features_replies id xid [] c.routers)) id (next_egress sr) new

unfoldable pub on_features_request : Controller → SibId → SibRouter → ℕ → Controller
unfolding grant_features
on_features_request c id sr xid =
    if xid == sr.current_egress_xid then grant_features (after_features sr.state) c id sr xid else c

-- RFPT_IF_ADDRESS_REQ.
unfoldable pub on_if_address_req : Controller → SibId → SibRouter → ℕ → Controller
on_if_address_req c id sr xid =
    if xid == sr.current_egress_xid
    then transit (after_if_address sr.state) (emit c (if_addr_add id xid c.routers)) id
        (next_egress sr)
    else c

-- RFPT_REDISTRIBUTE_REQUEST.
unfoldable pub grant_redistribute :
    Option SibRouterState → Controller → SibId → SibRouter → ℕ → Controller
grant_redistribute none c id sr xid = c
grant_redistribute (some new) c id sr xid =
    state_transition (emit c (redistribute id xid c.rib)) id (next_egress sr) new

unfoldable pub on_redistribute_request : Controller → SibId → SibRouter → ℕ → Controller
unfolding grant_redistribute
on_redistribute_request c id sr xid =
    if xid == sr.current_egress_xid
    then grant_redistribute (after_redistribute sr.state) c id sr xid
    else c

-- append_msg_to_rcvd_queue.
unfoldable pub append_msg_to_rcvd_queue : SibRouter → Rfpbuf → SibRouter
append_msg_to_rcvd_queue sr msg = record sr { msgs_rcvd_queue = sr.msgs_rcvd_queue ++ msg ∷ [] }

-- All siblings are connected, and the count of messages passes.
unfoldable pub may_vote : Controller → Bool
may_vote c = length c.ospf6_siblings == c.num_sibs_conf && majority_have_msg_rcvd c

-- The common part of RFPT_IPV6_ROUTE_SET_REQUEST and RFPT_FORWARD_OSPF6.
unfoldable pub queue_msg : Controller → SibId → SibRouter → Rfpbuf → Option Controller
unfolding append_msg_to_rcvd_queue may_vote
queue_msg c id sr msg =
    let queued = put_sib c id (append_msg_to_rcvd_queue sr msg) in
    if rh_xid msg == sr.current_egress_xid
    then (if may_vote queued then vote_majority queued else some queued)
    else if ltb sr.current_egress_xid (rh_xid msg)
    then some queued
    else some c

-- The transaction id that a sibling takes over with its first message: the leader's, unless it is
-- the leader or there is none.
unfoldable pub egress_of : Option SibRouter → ℕ → ℕ
egress_of none own = own
egress_of (some l) own = l.current_egress_xid

unfoldable pub synchronize : Controller → SibRouter → SibRouter
unfolding egress_of
synchronize c sr =
    if sr.waiting_on_first_egress_msg
    then record sr {
      current_egress_xid =
          if sr.is_leader
          then sr.current_egress_xid
          else egress_of (c.leader_sibling >>= get_sib c) sr.current_egress_xid;
      waiting_on_first_egress_msg = false;
    }
    else sr

-- RFPT_FORWARD_OSPF6.
unfoldable pub on_forward_ospf6 : Controller → SibId → SibRouter → Rfpbuf → Option Controller
unfolding synchronize queue_msg
on_forward_ospf6 c id sr msg = let sr' = synchronize c sr in queue_msg (put_sib c id sr') id sr' msg

-- RFPT_ACK.
unfoldable pub on_ack : Controller → SibId → SibRouter → ℕ → Controller
on_ack c id sr xid =
    if xid == sr.current_ingress_xid
    then put_sib c id (record sr { current_ingress_ack_rcvd = true })
    else c

-- RFPT_REDISTRIBUTE_LEADER_ELECT. CONTROLLER_DEBUG_MSG is a constant that is not zero, so the log
-- line always reads the name of the leader's connection: with no leader that is a null pointer, and
-- with a leader that has disconnected it is freed.
unfoldable pub name_leader : Bool → Controller → SibId → SibRouter → Option Controller
name_leader true c id sr =
    some (record (put_sib c id (record sr { is_leader = true })) { leader_sibling = some id })
name_leader false c id sr = do
  leader ← c.leader_sibling
  l ← get_sib c leader
  if is_disconnected l.state then none else some (put_sib c id (record sr { is_leader = false }))

unfoldable pub on_leader_elect : Controller → SibId → SibRouter → Rfpbuf → Option Controller
unfolding name_leader
on_leader_elect c id sr msg = name_leader (get_or msg header_size 0 == 1) c id sr

-- The `switch`.
unfoldable pub dispatch :
    Option RfpType → Controller → SibId → SibRouter → Rfpbuf → Option Controller
unfolding on_features_request on_if_address_req on_redistribute_request queue_msg on_forward_ospf6
    on_ack on_leader_elect
dispatch (some features_request) c id sr msg = some (on_features_request c id sr (rh_xid msg))
dispatch (some if_address_req) c id sr msg = some (on_if_address_req c id sr (rh_xid msg))
dispatch (some redistribute_request) c id sr msg =
    some (on_redistribute_request c id sr (rh_xid msg))
dispatch (some ipv6_route_set_request) c id sr msg = queue_msg c id sr msg
dispatch (some forward_ospf6) c id sr msg = on_forward_ospf6 c id sr msg
dispatch (some forward_bgp) c id sr msg = some (emit c (forward_all 0 msg c.routers))
dispatch (some ack) c id sr msg = some (on_ack c id sr (rh_xid msg))
dispatch (some redistribute_leader_elect) c id sr msg = on_leader_elect c id sr msg
dispatch _ c id sr msg = some c

unfoldable pub process_packet : Controller → SibId → Rfpbuf → Option Controller
unfolding dispatch get_sib
process_packet c id msg = do sr ← get_sib c id; dispatch (rh_type msg) c id sr msg
