-- ===== src/Controller/Invariant.antt =====
-- What holds of the controller between two events.
use harry.Base.{
  ℕ, ◌+◌, ◌≤◌, ◌≡◌, refl, List, [], some, Bool, true, false, if◌then◌else◌, arith, flag, count_if,
  count_if-set, set-set, All, All-set, All-get,
}
use harry.Controller.State.{
  SibRouterState, routing, disconnected, is_routing, SibRouter, SibId, ospf6_sib, bgp_sib,
  Controller, get_sib, put_sib, emit, is_disconnected, Output,
}
use harry.Controller.Transition.{
  moved, next_count, enters_routing, state_transition, send_leader_elect,
}

-- A sibling that is to send its first message is routing, and a disconnected one has an empty queue.
pub record IsSound (s : SibRouter) : Type 0 where
  pub waiting_routes : s.waiting_on_first_egress_msg ≡ true → s.state ≡ routing
  pub disconnected_empty : s.state ≡ disconnected → s.msgs_rcvd_queue ≡ []

abbrev pub routes : SibRouter → Bool
routes s = is_routing s.state

-- The routing siblings of both protocols.
abbrev pub routing_total : Controller → ℕ
routing_total c = count_if routes c.ospf6_siblings + count_if routes c.bgp_siblings

pub record Inv (c : Controller) : Type 0 where
  pub counted : c.n_ospf6_siblings_routing ≡ routing_total c
  pub ospf6_sound : All IsSound c.ospf6_siblings
  pub bgp_sound : All IsSound c.bgp_siblings

pub get_sib-IsSound :
    (c : Controller) (id : SibId) (s : SibRouter) → Inv c → get_sib c id ≡ some s → IsSound s
unfolding get_sib
get_sib-IsSound c (ospf6_sib i) s v e = All-get IsSound c.ospf6_siblings i s v.ospf6_sound e
get_sib-IsSound c (bgp_sib i) s v e = All-get IsSound c.bgp_siblings i s v.bgp_sound e

-- A write moves the number of routing siblings by the two states.
pub routing_total-put_sib :
    (c : Controller) (id : SibId) (s t : SibRouter)
    → get_sib c id ≡ some s
    → routing_total (put_sib c id t) + flag (routes s) ≡ routing_total c + flag (routes t)
unfolding get_sib put_sib
routing_total-put_sib c (ospf6_sib i) s t e =
    omega (arith, count_if-set routes c.ospf6_siblings i s t e)
routing_total-put_sib c (bgp_sib i) s t e =
    omega (arith, count_if-set routes c.bgp_siblings i s t e)

-- A write of a sound sibling that routes as the old one did keeps the invariant.
pub put_sib-Inv :
    (c : Controller) (id : SibId) (s t : SibRouter) (n : ℕ)
    → Inv c
    → get_sib c id ≡ some s
    → IsSound t
    → n + flag (routes s) ≡ c.n_ospf6_siblings_routing + flag (routes t)
    → Inv (record (put_sib c id t) { n_ospf6_siblings_routing = n })
unfolding put_sib get_sib
put_sib-Inv c (ospf6_sib i) s t n v e st h = record {
  counted = omega (arith, v.counted, routing_total-put_sib c (ospf6_sib i) s t e);
  ospf6_sound = All-set IsSound c.ospf6_siblings i t v.ospf6_sound st;
  bgp_sound = v.bgp_sound;
}
put_sib-Inv c (bgp_sib i) s t n v e st h = record {
  counted = omega (arith, v.counted, routing_total-put_sib c (bgp_sib i) s t e);
  ospf6_sound = v.ospf6_sound;
  bgp_sound = All-set IsSound c.bgp_siblings i t v.bgp_sound st;
}

pub put_sib_same-Inv :
    (c : Controller) (id : SibId) (s t : SibRouter)
    → Inv c
    → get_sib c id ≡ some s
    → IsSound t
    → t.state ≡ s.state
    → Inv (put_sib c id t)
unfolding put_sib
put_sib_same-Inv c (ospf6_sib i) s t v e st h =
    put_sib-Inv c (ospf6_sib i) s t c.n_ospf6_siblings_routing v e st (rw h)
put_sib_same-Inv c (bgp_sib i) s t v e st h =
    put_sib-Inv c (bgp_sib i) s t c.n_ospf6_siblings_routing v e st (rw h)

-- Which moves keep the count: into routing only by the two counted ways, out of it only by a
-- disconnection.
abbrev pub fits : SibRouterState → SibRouterState → Bool
fits old new =
    if is_routing old
    then is_disconnected new
    else if is_routing new
    then enters_routing old new
    else true

next_count-fits :
    (old new : SibRouterState) (n : ℕ)
    → fits old new ≡ true
    → flag (is_routing old) ≤ n
    → next_count old new n + flag (is_routing old) ≡ n + flag (is_routing new)
next_count-fits old new n h k = ground arith

flag-le-routing_total :
    (c : Controller) (id : SibId) (s : SibRouter)
    → get_sib c id ≡ some s
    → flag (routes s) ≤ routing_total c
flag-le-routing_total c id s e =
    omega (arith, routing_total-put_sib c id s (record s { state = disconnected }) e)

pub emit-Inv : (c : Controller) (os : List Output) → Inv c → Inv (emit c os)
emit-Inv c os v = record {
  counted = v.counted;
  ospf6_sound = v.ospf6_sound;
  bgp_sound = v.bgp_sound;
}

pub elect-Inv : (b : Bool) (c : Controller) → Inv c → Inv (if b then send_leader_elect c else c)
unfolding send_leader_elect
elect-Inv true c v = emit-Inv c _ v
elect-Inv false c v = v

module _ (c : Controller) (id : SibId) (s sr : SibRouter) (new : SibRouterState) (v : Inv c)
    (e : get_sib c id ≡ some s) (same : sr.state ≡ s.state) (fit : fits sr.state new ≡ true) where
  count_next :
      next_count sr.state new c.n_ospf6_siblings_routing + flag (routes s)
      ≡ c.n_ospf6_siblings_routing + flag (is_routing new)
  count_next =
      let low : flag (is_routing sr.state) ≤ c.n_ospf6_siblings_routing =
        rw (same, v.counted) (flag-le-routing_total c id s e) in
      rw (← same) (next_count-fits sr.state new c.n_ospf6_siblings_routing fit low)

  pub state_transition-Inv : IsSound (moved sr new) → Inv (state_transition c id sr new)
  unfolding state_transition
  state_transition-Inv st = elect-Inv _ _ (put_sib-Inv c id s (moved sr new) _ v e st count_next)

-- The invariant reads three fields.
abbrev SameView : Controller → Controller → Type 0
SameView c d =
    (d.n_ospf6_siblings_routing ≡ c.n_ospf6_siblings_routing)
    × (d.ospf6_siblings ≡ c.ospf6_siblings)
    × (d.bgp_siblings ≡ c.bgp_siblings)

pub SameView-Inv : (c d : Controller) → SameView c d → Inv c → Inv d
SameView-Inv c d h v = record {
  counted = rw (h.0, h.1, h.2) v.counted;
  ospf6_sound = rw h.1 v.ospf6_sound;
  bgp_sound = rw h.2 v.bgp_sound;
}

put_sib-over :
    (b : Bool) (c : Controller) (id : SibId) (s t : SibRouter) (n : ℕ)
    → let c' = record (put_sib c id s) { n_ospf6_siblings_routing = n } in
      SameView
        (record (put_sib c id t) { n_ospf6_siblings_routing = n })
        (put_sib (if b then send_leader_elect c' else c') id t)
unfolding put_sib send_leader_elect
put_sib-over true c (ospf6_sib i) s t n = (refl, set-set c.ospf6_siblings i s t, refl)
put_sib-over true c (bgp_sib i) s t n = (refl, refl, set-set c.bgp_siblings i s t)
put_sib-over false c (ospf6_sib i) s t n = (refl, set-set c.ospf6_siblings i s t, refl)
put_sib-over false c (bgp_sib i) s t n = (refl, refl, set-set c.bgp_siblings i s t)

-- A transition whose result is then written over, as reuse and destruction do.
pub put_sib-state_transition-Inv :
    (c : Controller) (id : SibId) (s t : SibRouter)
    → Inv c
    → get_sib c id ≡ some s
    → fits s.state t.state ≡ true
    → IsSound t
    → Inv (put_sib (state_transition c id s t.state) id t)
unfolding state_transition
put_sib-state_transition-Inv c id s t v e fit st =
    SameView-Inv _ _ (put_sib-over _ c id (moved s t.state) t _)
      (put_sib-Inv c id s t _ v e st (count_next c id s s t.state v e refl fit))
