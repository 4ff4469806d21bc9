-- ===== src/Controller/Handlers.antt =====
-- The invariant under the handlers of sib_router_process_packet.
use harry.Base.{
  ℕ, ◌≡◌, refl, ◌∙◌, List, Option, none, some, Bool, true, false, ◌==◌, if◌then◌else◌, inl, inr,
  arith, Bool-cases, Option-cases, Holds, Holds-bind, get_elem?-map, ◌>>=◌, ltb,
}
use harry.Message.{Rfpbuf, rh_xid}
use harry.Controller.State.{
  SibRouterState, is_disconnected, SibRouter, SibId, ospf6_sib, bgp_sib, Controller, get_sib,
  put_sib, emit, Output,
}
use harry.Controller.Transition.{state_transition}
use harry.Controller.Vote.{
  advance, accept_vote, settle, record_leader_xid, store_xid, vote_majority, first_msg,
  compare_msgs, exceeds_half, num_hosts,
}
use harry.Controller.Packet.{
  after_features, after_redistribute, after_if_address, next_egress, grant_features,
  on_features_request, on_if_address_req, grant_redistribute, on_redistribute_request,
  append_msg_to_rcvd_queue, may_vote, queue_msg, on_ack, name_leader,
}
use harry.Controller.Invariant.{IsSound, emit-Inv, get_sib-IsSound}
use harry.Controller.Preservation.{advanced-Inv, state-advance}
use harry.Controller.Live.{
  Good, get_sib-emit, emit-Good, put_sib-Good, state_transition-Good, IsHandshake, moved-IsSound,
  after_features-IsHandshake, after_redistribute-IsHandshake, after_if_address-IsHandshake,
}

next_egress-IsSound : (sr : SibRouter) → IsSound sr → IsSound (next_egress sr)
next_egress-IsSound sr h = record {
  waiting_routes = h.waiting_routes;
  disconnected_empty = h.disconnected_empty;
}

-- A granted request of the handshake.
handshake-Good :
    (c : Controller) (id : SibId) (os : List Output) (g : Good id c) (new : SibRouterState)
    → IsHandshake g.sib.state new
    → Good id (state_transition (emit c os) id (next_egress g.sib) new)
handshake-Good c id os g new k =
    state_transition-Good (emit c os) id g.sib (next_egress g.sib) new (emit-Inv c os g.inv)
      (get_sib-emit c id os ∙ g.here) refl k.fit
      (moved-IsSound g.sib new (get_sib-IsSound c id g.sib g.inv g.here) k) k.live

get_sib-leader :
    (c : Controller) (id : SibId) (l : Option SibId)
    → get_sib (record c { leader_sibling = l }) id ≡ get_sib c id
unfolding get_sib
get_sib-leader c (ospf6_sib i) l = refl
get_sib-leader c (bgp_sib i) l = refl

leader-Good :
    (c : Controller) (id : SibId) (l : Option SibId)
    → Good id c
    → Good id (record c { leader_sibling = l })
leader-Good c id l g = record {
  inv = record {
    counted = g.inv.counted;
    ospf6_sound = g.inv.ospf6_sound;
    bgp_sound = g.inv.bgp_sound;
  };
  sib = g.sib;
  here = get_sib-leader c id l ∙ g.here;
  live = g.live;
}

append-Good :
    (c : Controller) (id : SibId) (g : Good id c) (msg : Rfpbuf)
    → Good id (put_sib c id (append_msg_to_rcvd_queue g.sib msg))
unfolding append_msg_to_rcvd_queue
append-Good c id g msg =
    put_sib-Good c id g.sib _ g.inv g.here
      (record {
        waiting_routes = (get_sib-IsSound c id g.sib g.inv g.here).waiting_routes;
        disconnected_empty = ground (arith, g.live);
      })
      refl g.live

module _ (c : Controller) (id : SibId) (g : Good id c) where
  sound : IsSound g.sib
  sound = get_sib-IsSound c id g.sib g.inv g.here

  pub features_request-Good : (xid : ℕ) → Good id (on_features_request c id g.sib xid)
  unfolding on_features_request grant_features
  features_request-Good xid = elim (Bool-cases (xid == g.sib.current_egress_xid)) [
    | inr other ↦ rw other g
    | inl ok ↦ elim (Option-cases (after_features g.sib.state)) [
      | inl e ↦ rw (ok, e) g
      | inr (new, e) ↦ rw (ok, e) (handshake-Good c id _ g new (after_features-IsHandshake _ new e))
    ]
  ]

  pub redistribute_request-Good : (xid : ℕ) → Good id (on_redistribute_request c id g.sib xid)
  unfolding on_redistribute_request grant_redistribute
  redistribute_request-Good xid = elim (Bool-cases (xid == g.sib.current_egress_xid)) [
    | inr other ↦ rw other g
    | inl ok ↦ elim (Option-cases (after_redistribute g.sib.state)) [
      | inl e ↦ rw (ok, e) g
      | inr (new, e) ↦
          rw (ok, e) (handshake-Good c id _ g new (after_redistribute-IsHandshake _ new e))
    ]
  ]

  pub if_address_req-Good : (xid : ℕ) → Good id (on_if_address_req c id g.sib xid)
  unfolding on_if_address_req
  if_address_req-Good xid = elim (Bool-cases (xid == g.sib.current_egress_xid)) [
    | inr other ↦ rw other g
    | inl ok ↦ elim (Option-cases (after_if_address g.sib.state)) [
      | inl e ↦
          rw (ok, e)
            (put_sib-Good (emit c _) id g.sib (next_egress g.sib) (emit-Inv c _ g.inv)
              (get_sib-emit c id _ ∙ g.here) (next_egress-IsSound g.sib sound) refl g.live)
      | inr (new, e) ↦
          rw (ok, e) (handshake-Good c id _ g new (after_if_address-IsHandshake _ new e))
    ]
  ]

  pub ack-Good : (xid : ℕ) → Good id (on_ack c id g.sib xid)
  unfolding on_ack
  ack-Good xid = elim (Bool-cases (xid == g.sib.current_ingress_xid)) [
    | inr other ↦ rw other g
    | inl ok ↦ rw ok (
        put_sib-Good c id g.sib (record g.sib { current_ingress_ack_rcvd = true }) g.inv g.here
          (record {
            waiting_routes = sound.waiting_routes;
            disconnected_empty = sound.disconnected_empty;
          })
          refl g.live)
  ]

  named-Good : (b : Bool) → Good id (put_sib c id (record g.sib { is_leader = b }))
  named-Good b =
      put_sib-Good c id g.sib (record g.sib { is_leader = b }) g.inv g.here
        (record {
          waiting_routes = sound.waiting_routes;
          disconnected_empty = sound.disconnected_empty;
        })
        refl g.live

  pub name_leader-Good : (b : Bool) → Holds (Good id) (name_leader b c id g.sib)
  unfolding name_leader
  name_leader-Good true = leader-Good _ id (some id) (named-Good true)
  name_leader-Good false =
      Holds-bind (Good id) c.leader_sibling _ λ leader _.
        Holds-bind (Good id) (get_sib c leader) _ λ l _. unless (is_disconnected l.state)
    where
      unless :
          (b : Bool)
          → Holds
              (Good id)
              (if b then none else some (put_sib c id (record g.sib { is_leader = false })))
      unless true = tt
      unless false = named-Good false

-- The vote leaves a sibling in the state in which it finds it.
record_leader_xid-Good : (c : Controller) (id : SibId) → Good id c → Good id (record_leader_xid c)
unfolding record_leader_xid
record_leader_xid-Good c id g = store (c.leader_sibling >>= get_sib c)
  where
    store : (o : Option SibRouter) → Good id (store_xid o c)
    store none = g
    store (some l) = elim (Bool-cases (is_disconnected l.state)) [
      | inl e ↦ rw e g
      | inr e ↦ rw e (emit-Good c id _ g)
    ]

accept_vote-Good :
    (c : Controller) (a : Rfpbuf) (id : SibId) → Good id c → Good id (accept_vote c a)
unfolding accept_vote get_sib
accept_vote-Good c a (ospf6_sib i) g = record_leader_xid-Good _ _ (record {
  inv = advanced-Inv c _ g.inv;
  sib = advance g.sib;
  here = get_elem?-map advance c.ospf6_siblings i g.sib g.here;
  live = rw (state-advance g.sib) g.live;
})
accept_vote-Good c a (bgp_sib i) g =
    record_leader_xid-Good _ _
      (record { inv = advanced-Inv c _ g.inv; sib = g.sib; here = g.here; live = g.live })

vote_majority-Good : (c : Controller) (id : SibId) → Good id c → Holds (Good id) (vote_majority c)
unfolding vote_majority settle
vote_majority-Good c id g =
    Holds-bind (Good id) (first_msg c.ospf6_siblings) _ λ r e. decide (compare_msgs r.0 1 r.1)
  where
    decide : (r : Rfpbuf × ℕ) → Good id (settle c r)
    decide (a, n) = elim (Bool-cases (exceeds_half n (num_hosts c))) [
      | inl ok ↦ rw ok (accept_vote-Good c a id g)
      | inr few ↦ rw few g
    ]

-- A message that is queued, counted or refused.
pub queue_msg-Good :
    (c : Controller) (id : SibId) (g : Good id c) (msg : Rfpbuf)
    → Holds (Good id) (queue_msg c id g.sib msg)
unfolding queue_msg
queue_msg-Good c id g msg = elim (Bool-cases (rh_xid msg == g.sib.current_egress_xid)) [
  | inl now ↦ rw now (voted (may_vote queued))
  | inr later ↦ rw later (kept (ltb g.sib.current_egress_xid (rh_xid msg)))
]
  where
    queued : Controller
    queued = put_sib c id (append_msg_to_rcvd_queue g.sib msg)

    queued-Good : Good id queued
    queued-Good = append-Good c id g msg

    voted : (b : Bool) → Holds (Good id) (if b then vote_majority queued else some queued)
    voted true = vote_majority-Good queued id queued-Good
    voted false = queued-Good

    kept : (b : Bool) → Holds (Good id) (if b then some queued else some c)
    kept true = queued-Good
    kept false = g
