-- ===== src/Handshake.antt =====
-- The handshake between ospf6-sibling/ctrl_client.c and controller/sib_router.c: the requests that
-- a client sends, in the order in which it sends them, on the controller's side of the connection.
use harry.Base.{
  ℕ, ◌+◌, ◌<◌, ◌≡◌, refl, sym, ap, ◌∙◌, List, [], ◌∷◌, ◌++◌, some, Bool, true, false, ◌==◌,
  if◌then◌else◌, arith, ==_iff, map, append_assoc, u32,
}
use harry.Message.{
  Rfpbuf, RfpType, features_request, redistribute_request, if_address_req, rh_type, rh_xid,
  rfp10_version, header_size,
}
use harry.Message.Laws.{header_roundtrip}
use harry.Controller.State.{
  SibRouterState, connected, features_req_rcvd, features_redis_req_rcvd, routing, SibRouter, SibId,
  Controller, get_sib, put_sib, emit, Output,
}
use harry.Controller.Transition.{
  state_transition, next_count, moved, send_leader_elect, features_replies, redistribute,
  if_addr_add,
}
use harry.Controller.Packet.{
  process_packet, dispatch, on_features_request, grant_features, on_redistribute_request,
  grant_redistribute, on_if_address_req, next_egress,
}
use harry.Controller.Life.{process_msgs, msgs_per_run}
use harry.Controller.Live.{get_sib-emit, get_sib-state_transition}
use harry.Sibling.State.{CtrlClient, Process, ctrl_send}
use harry.Sibling.Client.{
  next_xid, header_msg, send_numbered, put_client, ctrl_client_connected, ctrl_client_if_addr_req,
}

-- The requests of a client, numbered one by one.
abbrev pub requests : CtrlClient → List Rfpbuf
requests k =
    header_msg features_request k
    ∷ header_msg redistribute_request (next_xid k)
    ∷ header_msg if_address_req (next_xid (next_xid k))
    ∷ []

-- What the client does on its way to them.
abbrev pub send_requests : Process → ℕ → CtrlClient → Process
send_requests p i k =
    ctrl_client_if_addr_req (ctrl_client_connected p i k) i (next_xid (next_xid k))

-- A sibling of the controller in a state, at a transaction id, while `n` siblings are counted as routing.
pub record StandsAt (c : Controller) (id : SibId) (st : SibRouterState) (xid n : ℕ) : Type 0 where
  pub sib : SibRouter
  pub here : get_sib c id ≡ some sib
  pub in_state : sib.state ≡ st
  pub at_xid : sib.current_egress_xid ≡ xid
  pub counted : c.n_ospf6_siblings_routing ≡ n

count-state_transition :
    (c : Controller) (id : SibId) (sr : SibRouter) (new : SibRouterState)
    → (state_transition c id sr new).n_ospf6_siblings_routing
      ≡ next_count sr.state new c.n_ospf6_siblings_routing
unfolding state_transition send_leader_elect
count-state_transition c id sr new = elected _
  where
    c' : Controller
    c' = record (put_sib c id (moved sr new)) {
      n_ospf6_siblings_routing = next_count sr.state new c.n_ospf6_siblings_routing;
    }

    elected :
        (b : Bool)
        → (if b then send_leader_elect c' else c').n_ospf6_siblings_routing
          ≡ next_count sr.state new c.n_ospf6_siblings_routing
    elected true = refl
    elected false = refl

-- A granted request.
granted :
    (c : Controller) (id : SibId) (st new : SibRouterState) (xid n : ℕ) (os : List Output)
    → (g : StandsAt c id st xid n)
    → StandsAt
        (state_transition (emit c os) id (next_egress g.sib) new)
        id
        new
        (u32 (xid + 1))
        (next_count st new n)
granted c id st new xid n os g = record {
  sib = moved (next_egress g.sib) new;
  here =
      get_sib-state_transition (emit c os) id g.sib (next_egress g.sib) new
        (get_sib-emit c id os ∙ g.here);
  in_state = refl;
  at_xid = ap (λ x. u32 (x + 1)) g.at_xid;
  counted =
      count-state_transition (emit c os) id (next_egress g.sib) new
      ∙ rw (g.in_state, g.counted) refl;
}

header_msg-rh :
    (t : RfpType) (k : CtrlClient)
    → k.current_xid < 4294967296
    → (rh_type (header_msg t k) ≡ some t) × (rh_xid (header_msg t k) ≡ k.current_xid)
unfolding header_msg
header_msg-rh t k h =
    let r = header_roundtrip t rfp10_version k.current_xid header_size h (omega arith) in (r.0, r.1)

-- A request that is in order is granted from the state that admits it.
module _ (c : Controller) (id : SibId) (k : CtrlClient) (n : ℕ)
    (bound : k.current_xid < 4294967296) where
  same_xid :
      (t : RfpType) (sib : SibRouter)
      → sib.current_egress_xid ≡ k.current_xid
      → (rh_xid (header_msg t k) == sib.current_egress_xid) ≡ true
  same_xid t sib e = (==_iff _ _).1 ((header_msg-rh t k bound).1 ∙ sym e)

  features_granted :
      StandsAt c id connected k.current_xid n
      → (c' : Controller) × (process_packet c id (header_msg features_request k) ≡ some c')
        × StandsAt c' id features_req_rcvd (next_xid k).current_xid n
  unfolding process_packet dispatch on_features_request grant_features
  features_granted g = (
    state_transition
        (emit c (features_replies id (rh_xid (header_msg features_request k)) [] c.routers)) id
        (next_egress g.sib) features_req_rcvd,
    rw
        (
          g.here,
          (header_msg-rh features_request k bound).0,
          same_xid features_request g.sib g.at_xid,
          g.in_state,
        )
        refl,
    granted c id connected features_req_rcvd k.current_xid n _ g,
  )

  redistribute_granted :
      StandsAt c id features_req_rcvd k.current_xid n
      → (c' : Controller) × (process_packet c id (header_msg redistribute_request k) ≡ some c')
        × StandsAt c' id features_redis_req_rcvd (next_xid k).current_xid n
  unfolding process_packet dispatch on_redistribute_request grant_redistribute
  redistribute_granted g = (
    state_transition (emit c (redistribute id (rh_xid (header_msg redistribute_request k)) c.rib))
        id (next_egress g.sib) features_redis_req_rcvd,
    rw
        (
          g.here,
          (header_msg-rh redistribute_request k bound).0,
          same_xid redistribute_request g.sib g.at_xid,
          g.in_state,
        )
        refl,
    granted c id features_req_rcvd features_redis_req_rcvd k.current_xid n _ g,
  )

  addresses_granted :
      StandsAt c id features_redis_req_rcvd k.current_xid n
      → (c' : Controller) × (process_packet c id (header_msg if_address_req k) ≡ some c')
        × StandsAt c' id routing (next_xid k).current_xid (n + 1)
  unfolding process_packet dispatch on_if_address_req
  addresses_granted g = (
    state_transition (emit c (if_addr_add id (rh_xid (header_msg if_address_req k)) c.routers)) id
        (next_egress g.sib) routing,
    rw
        (
          g.here,
          (header_msg-rh if_address_req k bound).0,
          same_xid if_address_req g.sib g.at_xid,
          g.in_state,
        )
        refl,
    granted c id features_redis_req_rcvd routing k.current_xid n _ g,
  )

sends :
    (p : Process) (i : ℕ) (k : CtrlClient)
    → k.sock_open ≡ true
    → (send_requests p i k).out ≡ p.out ++ map (ctrl_send i) (requests k)
unfolding ctrl_client_if_addr_req ctrl_client_connected send_numbered put_client
sends p i k open_sock =
    rw open_sock
      (append_assoc (p.out ++ _ ∷ []) (_ ∷ []) (_ ∷ []) ∙ append_assoc p.out (_ ∷ []) (_ ∷ _ ∷ []))

next_xid-bound : (k : CtrlClient) → (next_xid k).current_xid < 4294967296
next_xid-bound k = omega arith

joins :
    (c : Controller) (id : SibId) (k : CtrlClient) (n : ℕ)
    → k.current_xid < 4294967296
    → StandsAt c id connected k.current_xid n
    → (c' : Controller) × (process_msgs msgs_per_run c id (requests k) ≡ some c')
      × StandsAt c' id routing (next_xid (next_xid (next_xid k))).current_xid (n + 1)
unfolding process_msgs
joins c id k n bound g =
    let (c1, e1, g1) = features_granted c id k n bound g in
    let (c2, e2, g2) = redistribute_granted c1 id (next_xid k) n (next_xid-bound k) g1 in
    let (c3, e3, g3) =
      addresses_granted c2 id (next_xid (next_xid k)) n (next_xid-bound (next_xid k)) g2 in
    (c3, rw (e1, e2, e3) refl, g3)

-- A client with an open socket, at the transaction id, of 32 bits, that the controller expects of
-- its sibling in SIB_CONNECTED, sends three requests, and one run of the sibling's message loop
-- over just these leads the sibling to SIB_ROUTING, at the client's next transaction id, with one
-- more sibling counted as routing.
pub handshake :
    (p : Process) (i : ℕ) (k : CtrlClient) (c : Controller) (id : SibId) (s : SibRouter)
    → k.sock_open ≡ true
    → k.current_xid < 4294967296
    → get_sib c id ≡ some s
    → s.state ≡ connected
    → s.current_egress_xid ≡ k.current_xid
    → ((send_requests p i k).out ≡ p.out ++ map (ctrl_send i) (requests k))
      × ((c' : Controller) × (process_msgs msgs_per_run c id (requests k) ≡ some c')
          × StandsAt c' id routing
              (next_xid (next_xid (next_xid k))).current_xid
              (c.n_ospf6_siblings_routing + 1))
handshake p i k c id s open_sock bound here st at = (
  sends p i k open_sock,
  joins c id k c.n_ospf6_siblings_routing bound
      (record { sib = s; here = here; in_state = st; at_xid = at; counted = refl }),
)
