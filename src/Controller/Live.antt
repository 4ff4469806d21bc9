-- ===== src/Controller/Live.antt =====
-- A sibling and the invariant while a packet of that sibling is handled.
use harry.Base.{
  ℕ, ◌≡◌, refl, ◌∙◌, List, some, Bool, true, false, if◌then◌else◌, arith, get_elem?-set_self,
}
use harry.Controller.State.{
  SibRouterState, is_routing, is_disconnected, SibRouter, SibId, ospf6_sib, bgp_sib, Controller,
  get_sib, put_sib, emit, Output,
}
use harry.Controller.Transition.{moved, state_transition, send_leader_elect}
use harry.Controller.Packet.{after_features, after_redistribute, after_if_address, next_egress}
use harry.Controller.Invariant.{
  IsSound, Inv, emit-Inv, fits, put_sib_same-Inv, state_transition-Inv,
}

pub record Good (id : SibId) (c : Controller) : Type 0 where
  pub inv : Inv c
  pub sib : SibRouter
  pub here : get_sib c id ≡ some sib
  pub live : is_disconnected sib.state ≡ false

pub get_sib-emit :
    (c : Controller) (id : SibId) (os : List Output) → get_sib (emit c os) id ≡ get_sib c id
unfolding get_sib
get_sib-emit c (ospf6_sib i) os = refl
get_sib-emit c (bgp_sib i) os = refl

pub get_sib-put_sib :
    (c : Controller) (id : SibId) (s t : SibRouter)
    → get_sib c id ≡ some s
    → get_sib (put_sib c id t) id ≡ some t
unfolding get_sib put_sib
get_sib-put_sib c (ospf6_sib i) s t e = get_elem?-set_self c.ospf6_siblings i s t e
get_sib-put_sib c (bgp_sib i) s t e = get_elem?-set_self c.bgp_siblings i s t e

get_sib-elect :
    (b : Bool) (c : Controller) (id : SibId)
    → get_sib (if b then send_leader_elect c else c) id ≡ get_sib c id
unfolding send_leader_elect
get_sib-elect true c id = get_sib-emit c id _
get_sib-elect false c id = refl

get_sib-count :
    (c : Controller) (id : SibId) (n : ℕ)
    → get_sib (record c { n_ospf6_siblings_routing = n }) id ≡ get_sib c id
unfolding get_sib
get_sib-count c (ospf6_sib i) n = refl
get_sib-count c (bgp_sib i) n = refl

pub get_sib-state_transition :
    (c : Controller) (id : SibId) (s sr : SibRouter) (new : SibRouterState)
    → get_sib c id ≡ some s
    → get_sib (state_transition c id sr new) id ≡ some (moved sr new)
unfolding state_transition
get_sib-state_transition c id s sr new e =
    get_sib-elect _ _ id ∙ get_sib-count _ id _ ∙ get_sib-put_sib c id s (moved sr new) e

pub emit-Good : (c : Controller) (id : SibId) (os : List Output) → Good id c → Good id (emit c os)
emit-Good c id os g = record {
  inv = emit-Inv c os g.inv;
  sib = g.sib;
  here = get_sib-emit c id os ∙ g.here;
  live = g.live;
}

pub put_sib-Good :
    (c : Controller) (id : SibId) (s t : SibRouter)
    → Inv c
    → get_sib c id ≡ some s
    → IsSound t
    → t.state ≡ s.state
    → is_disconnected s.state ≡ false
    → Good id (put_sib c id t)
put_sib-Good c id s t v e st same live = record {
  inv = put_sib_same-Inv c id s t v e st same;
  sib = t;
  here = get_sib-put_sib c id s t e;
  live = rw same live;
}

pub state_transition-Good :
    (c : Controller) (id : SibId) (s sr : SibRouter) (new : SibRouterState)
    → Inv c
    → get_sib c id ≡ some s
    → sr.state ≡ s.state
    → fits sr.state new ≡ true
    → IsSound (moved sr new)
    → is_disconnected new ≡ false
    → Good id (state_transition c id sr new)
state_transition-Good c id s sr new v e same fit st live = record {
  inv = state_transition-Inv c id s sr new v e same fit st;
  sib = moved sr new;
  here = get_sib-state_transition c id s sr new e;
  live = live;
}

-- A transition of the handshake.
pub record IsHandshake (old new : SibRouterState) : Type 0 where
  pub not_routing : is_routing old ≡ false
  pub fit : fits old new ≡ true
  pub live : is_disconnected new ≡ false

pub moved-IsSound :
    (sr : SibRouter) (new : SibRouterState)
    → IsSound sr
    → IsHandshake sr.state new
    → IsSound (moved (next_egress sr) new)
moved-IsSound sr new h k = record {
  waiting_routes = ground (arith, h.waiting_routes);
  disconnected_empty = ground arith;
}

pub after_features-IsHandshake :
    (old new : SibRouterState) → after_features old ≡ some new → IsHandshake old new
after_features-IsHandshake old new h = ground arith

pub after_redistribute-IsHandshake :
    (old new : SibRouterState) → after_redistribute old ≡ some new → IsHandshake old new
after_redistribute-IsHandshake old new h = ground arith

pub after_if_address-IsHandshake :
    (old new : SibRouterState) → after_if_address old ≡ some new → IsHandshake old new
after_if_address-IsHandshake old new h = ground arith
