-- ===== src/Controller/Events.antt =====
-- The invariant under the events of controller/sib_router.c, and along a history of them.
use harry.Base.{
  ℕ, ◌≡◌, refl, List, [], ◌∷◌, inl, inr, arith, All-map, count_if-map, Bool-cases, Holds,
  Holds-then,
}
use harry.Controller.State.{is_routing, VoterType, Router, Route, SibRouter, Controller}
use harry.Controller.Life.{
  sib_router_init, expect_ack, sib_router_forward_ospf6, sib_router_forward_bgp, Event,
  accepts_ospf6, accepts_bgp, runs, forwards_ospf6, forwards_bgp, step, history,
}
use harry.Controller.Invariant.{IsSound, Inv, routes, emit-Inv}
use harry.Controller.Runs.{run_scheduled-Inv}
use harry.Controller.Arrivals.{accept_ospf6-Inv, accept_bgp-Inv}

expect_ack-IsSound : (xid : ℕ) (s : SibRouter) → IsSound s → IsSound (expect_ack xid s)
unfolding expect_ack
expect_ack-IsSound xid s h = elim (Bool-cases (is_routing s.state)) [
  | inl e ↦
      rw e (record { waiting_routes = h.waiting_routes; disconnected_empty = h.disconnected_empty })
  | inr e ↦ rw e h
]

routes-expect_ack : (xid : ℕ) (s : SibRouter) → routes (expect_ack xid s) ≡ routes s
unfolding expect_ack
routes-expect_ack xid s = ground arith

-- Every event keeps the invariant.
pub step-Inv : (c : Controller) (e : Event) → Inv c → Holds Inv (step c e)
unfolding step sib_router_forward_ospf6 sib_router_forward_bgp
step-Inv c (accepts_ospf6 junk) v = accept_ospf6-Inv c junk v
step-Inv c (accepts_bgp junk) v = accept_bgp-Inv c junk v
step-Inv c (runs id inbox alive) v = run_scheduled-Inv c id inbox alive v
step-Inv c (forwards_ospf6 msg xid) v = record {
  counted =
      rw (count_if-map routes (expect_ack xid) (routes-expect_ack xid) c.ospf6_siblings) v.counted;
  ospf6_sound =
      All-map IsSound (expect_ack xid) (expect_ack-IsSound xid) c.ospf6_siblings v.ospf6_sound;
  bgp_sound = v.bgp_sound;
}
step-Inv c (forwards_bgp msg) v = emit-Inv c _ v

history-Inv : (c : Controller) (es : List Event) → Inv c → Holds Inv (history c es)
unfolding history
history-Inv c [] v = v
history-Inv c (e ∷ es) v =
    Holds-then Inv Inv (step c e) _ (step-Inv c e v) λ c' w. history-Inv c' es w

init-Inv :
    (routers : List Router) (rib : List Route) (n : ℕ) (voter : VoterType)
    → Inv (sib_router_init routers rib n voter)
unfolding sib_router_init
init-Inv routers rib n voter = record { counted = refl; ospf6_sound = tt; bgp_sound = tt }

-- After any history of the initialised controller that does not fault, the counter of routing
-- siblings counts the siblings of both arrays that are in SIB_ROUTING, only routing siblings are
-- waiting for their first message, and disconnected siblings have empty queues.
pub history-init-Inv :
    (routers : List Router) (rib : List Route) (n : ℕ) (voter : VoterType) (es : List Event)
    → Holds Inv (history (sib_router_init routers rib n voter) es)
history-init-Inv routers rib n voter es = history-Inv _ es (init-Inv routers rib n voter)
