-- ===== src/Controller/Runs.antt =====
-- The invariant under sib_router_run of controller/sib_router.c.
use harry.Base.{
  ℕ, zero, suc, ◌≡◌, refl, List, [], ◌∷◌, Option, some, Bool, true, false, inl, inr, arith,
  Bool-cases, Holds, Holds-bind, Holds-then,
}
use harry.Message.{
  Rfpbuf, RfpType, rh_xid, rh_type, ack, features_request, redistribute_request,
  ipv6_route_set_request, if_address_req, forward_ospf6, forward_bgp, redistribute_leader_elect,
}
use harry.Controller.State.{
  connected, is_disconnected, SibRouter, SibId, Controller, get_sib, put_sib,
}
use harry.Controller.Transition.{state_transition}
use harry.Controller.Packet.{
  synchronize, on_forward_ospf6, on_leader_elect, dispatch, process_packet,
}
use harry.Controller.Life.{
  emptied, sib_router_destroy, process_msgs, is_connecting, run_connected, sib_router_run,
  run_scheduled, msgs_per_run,
}
use harry.Controller.Invariant.{
  IsSound, Inv, state_transition-Inv, put_sib-state_transition-Inv, get_sib-IsSound,
}
use harry.Controller.Live.{Good, get_sib-put_sib, emit-Good, put_sib-Good}
use harry.Controller.Handlers.{
  queue_msg-Good, features_request-Good, redistribute_request-Good, if_address_req-Good, ack-Good,
  name_leader-Good,
}
use harry.Controller.Keeps.{state-synchronize}

synchronize-IsSound : (c : Controller) (s : SibRouter) → IsSound s → IsSound (synchronize c s)
unfolding synchronize
synchronize-IsSound c s h = elim (Bool-cases s.waiting_on_first_egress_msg) [
  | inl e ↦ rw e (record { waiting_routes = λ w. cc; disconnected_empty = h.disconnected_empty })
  | inr e ↦ simp e h
]

forward-Good :
    (c : Controller) (id : SibId) (g : Good id c) (msg : Rfpbuf)
    → Holds (Good id) (on_forward_ospf6 c id g.sib msg)
unfolding on_forward_ospf6
forward-Good c id g msg =
    let s = synchronize c g.sib in
    let sound = synchronize-IsSound c g.sib (get_sib-IsSound c id g.sib g.inv g.here) in
    let g' = put_sib-Good c id g.sib s g.inv g.here sound (state-synchronize c g.sib) g.live in
    queue_msg-Good (put_sib c id s) id
      (record {
        inv = g'.inv;
        sib = s;
        here = get_sib-put_sib c id g.sib s g.here;
        live = rw (state-synchronize c g.sib) g.live;
      })
      msg

-- The packet types with an effect, then the others.
dispatch-Good :
    (t : Option RfpType) (c : Controller) (id : SibId) (g : Good id c) (msg : Rfpbuf)
    → Holds (Good id) (dispatch t c id g.sib msg)
unfolding dispatch on_leader_elect
dispatch-Good (some features_request) c id g msg = features_request-Good c id g (rh_xid msg)
dispatch-Good (some if_address_req) c id g msg = if_address_req-Good c id g (rh_xid msg)
dispatch-Good (some redistribute_request) c id g msg = redistribute_request-Good c id g (rh_xid msg)
dispatch-Good (some ipv6_route_set_request) c id g msg = queue_msg-Good c id g msg
dispatch-Good (some forward_ospf6) c id g msg = forward-Good c id g msg
dispatch-Good (some forward_bgp) c id g msg = emit-Good c id _ g
dispatch-Good (some ack) c id g msg = ack-Good c id g (rh_xid msg)
dispatch-Good (some redistribute_leader_elect) c id g msg = name_leader-Good c id g _
dispatch-Good _ c id g msg = g

pub process_packet-Good :
    (c : Controller) (id : SibId) (msg : Rfpbuf)
    → Good id c
    → Holds (Good id) (process_packet c id msg)
unfolding process_packet
process_packet-Good c id msg g = rw g.here (dispatch-Good (rh_type msg) c id g msg)

process_msgs-Good :
    (n : ℕ) (c : Controller) (id : SibId) (msgs : List Rfpbuf)
    → Good id c
    → Holds (Good id) (process_msgs n c id msgs)
unfolding process_msgs
process_msgs-Good zero c id msgs g = g
process_msgs-Good (suc n) c id [] g = g
process_msgs-Good (suc n) c id (m ∷ ms) g =
    Holds-then (Good id) (Good id) (process_packet c id m) _ (process_packet-Good c id m g)
      λ c' g'. process_msgs-Good n c' id ms g'

destroy-Inv : (c : Controller) (id : SibId) → Inv c → Holds Inv (sib_router_destroy c id)
unfolding sib_router_destroy emptied
destroy-Inv c id v = Holds-bind Inv (get_sib c id) _ λ s e.
    put_sib-state_transition-Inv c id s (emptied s) v e (ground arith)
      (record { waiting_routes = λ w. cc; disconnected_empty = λ d. refl })

run_connected-Inv :
    (c : Controller) (id : SibId) (inbox : List Rfpbuf) (alive : Bool)
    → Good id c
    → Holds Inv (run_connected c id inbox alive)
unfolding run_connected
run_connected-Inv c id inbox true g =
    Holds-then (Good id) Inv _ _ (process_msgs-Good msgs_per_run c id inbox g) λ c' g'. g'.inv
run_connected-Inv c id inbox false g =
    Holds-then (Good id) Inv _ _ (process_msgs-Good msgs_per_run c id inbox g)
      λ c' g'. destroy-Inv c' id g'.inv

connect-Inv :
    (c : Controller) (id : SibId) (s : SibRouter)
    → Inv c
    → get_sib c id ≡ some s
    → is_connecting s.state ≡ true
    → Inv (state_transition c id s connected)
connect-Inv c id s v e h =
    let sound = get_sib-IsSound c id s v e in
    state_transition-Inv c id s s connected v e refl (ground arith) (record {
      waiting_routes = ground (arith, sound.waiting_routes);
      disconnected_empty = ground arith;
    })

pub run_scheduled-Inv :
    (c : Controller) (id : SibId) (inbox : List Rfpbuf) (alive : Bool)
    → Inv c
    → Holds Inv (run_scheduled c id inbox alive)
unfolding run_scheduled sib_router_run
run_scheduled-Inv c id inbox alive v = Holds-bind Inv (get_sib c id) _ λ s e.
    elim (Bool-cases (is_disconnected s.state)) [
      | inl gone ↦ rw gone v
      | inr live ↦
          rw (live, e)
            (elim (Bool-cases (is_connecting s.state)) [
              | inl new ↦ rw new (connect-Inv c id s v e new)
              | inr old ↦ rw old (
                  run_connected-Inv c id inbox alive
                    (record { inv = v; sib = s; here = e; live = live }))
            ])
    ]
