-- ===== src/Controller/Preservation.antt =====
-- The invariant under the parts of vote_majority.
use harry.Base.{◌≡◌, refl, List, map, arith, All-map, count_if-map}
use harry.Controller.State.{SibRouter, Controller, Output}
use harry.Controller.Vote.{advance}
use harry.Controller.Invariant.{IsSound, Inv, routes}

advance-IsSound : (s : SibRouter) → IsSound s → IsSound (advance s)
unfolding advance
advance-IsSound s h = record {
  waiting_routes = h.waiting_routes;
  disconnected_empty = λ d. ground (arith, h.disconnected_empty d);
}

routes-advance : (s : SibRouter) → routes (advance s) ≡ routes s
unfolding advance
routes-advance s = refl

-- What the winning branch of a vote does before it stores the leader's transaction id.
pub advanced-Inv :
    (c : Controller) (os : List Output)
    → Inv c
    → Inv (record c { ospf6_siblings = map advance c.ospf6_siblings; out = os })
advanced-Inv c os v = record {
  counted = rw (count_if-map routes advance routes-advance c.ospf6_siblings) v.counted;
  ospf6_sound = All-map IsSound advance advance-IsSound c.ospf6_siblings v.ospf6_sound;
  bgp_sound = v.bgp_sound;
}

pub state-advance : (s : SibRouter) → (advance s).state ≡ s.state
unfolding advance
state-advance s = refl
