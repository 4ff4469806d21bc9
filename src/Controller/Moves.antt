-- ===== src/Controller/Moves.antt =====
-- Which states a packet can lead a sibling to.
use mathlib.Core.Option.{some-injective}
use harry.Base.{
  ◌≡◌, ◌≢◌, refl, sym, ap, ◌∙◌, subst, false, List, Option, none, some, ◌==◌, if◌then◌else◌, ◌⊎◌,
  inl, inr, Bool-cases, ==_iff, Holds, Holds-map, ◌>>=◌, get_or,
}
use harry.Message.{
  Rfpbuf, RfpType, ack, features_request, redistribute_request, ipv6_route_set_request,
  if_address_req, forward_ospf6, forward_bgp, redistribute_leader_elect, rh_type, rh_xid,
  header_size,
}
use harry.Controller.State.{
  SibRouterState, connected, features_req_rcvd, redistribute_req_rcvd, features_redis_req_rcvd,
  features_addr_req_rcvd, routing, SibRouter, SibId, Controller, get_sib, emit, Output,
}
use harry.Controller.Transition.{state_transition}
use harry.Controller.Packet.{
  after_features, after_redistribute, after_if_address, next_egress, transit, grant_features,
  on_features_request, on_if_address_req, grant_redistribute, on_redistribute_request, queue_msg,
  on_forward_ospf6, name_leader, on_leader_elect, dispatch, process_packet,
}
use harry.Controller.Live.{get_sib-emit, get_sib-state_transition}
use harry.Controller.Keeps.{
  state_at, Keeps, Keeps-refl, emit-Keeps, put_sib-Keeps, transition_other, queue_msg-Keeps,
  on_forward_ospf6-Keeps, on_ack-Keeps, name_leader-Keeps,
}

-- The protocol: which request leads from which state to which.
pub data IsGranted : RfpType → SibRouterState → SibRouterState → Type 0 where
  features_first : IsGranted features_request connected features_req_rcvd
  features_second : IsGranted features_request redistribute_req_rcvd features_redis_req_rcvd
  redistribute_first : IsGranted redistribute_request connected redistribute_req_rcvd
  redistribute_second : IsGranted redistribute_request features_req_rcvd features_redis_req_rcvd
  redistribute_last : IsGranted redistribute_request features_addr_req_rcvd routing
  addresses_second : IsGranted if_address_req features_req_rcvd features_addr_req_rcvd
  addresses_last : IsGranted if_address_req features_redis_req_rcvd routing

after_features-IsGranted :
    (st : SibRouterState) → Holds (IsGranted features_request st) (after_features st)
after_features-IsGranted connected = features_first
after_features-IsGranted redistribute_req_rcvd = features_second
after_features-IsGranted _ = tt

after_redistribute-IsGranted :
    (st : SibRouterState) → Holds (IsGranted redistribute_request st) (after_redistribute st)
after_redistribute-IsGranted connected = redistribute_first
after_redistribute-IsGranted features_req_rcvd = redistribute_second
after_redistribute-IsGranted features_addr_req_rcvd = redistribute_last
after_redistribute-IsGranted _ = tt

after_if_address-IsGranted :
    (st : SibRouterState) → Holds (IsGranted if_address_req st) (after_if_address st)
after_if_address-IsGranted features_req_rcvd = addresses_second
after_if_address-IsGranted features_redis_req_rcvd = addresses_last
after_if_address-IsGranted _ = tt

-- A packet is a request that the protocol grants: it has the transaction id that is expected of its
-- sender, whose state leads to `new`.
pub record IsDue (s : SibRouter) (msg : Rfpbuf) (new : SibRouterState) : Type 0 where
  pub request : RfpType
  pub announced : rh_type msg ≡ some request
  pub in_order : rh_xid msg ≡ s.current_egress_xid
  pub granted : IsGranted request s.state new

-- What a packet of the sibling `id` did: it led its sender on, as was due; or nothing was due, and
-- it kept all states.
pub data Moves (id : SibId) (s : SibRouter) (msg : Rfpbuf) (c c' : Controller) : Type 0 where
  stays : Keeps c c' → ((new : SibRouterState) → ¬ IsDue s msg new) → Moves id s msg c c'
  grants :
      (new : SibRouterState)
      → IsDue s msg new
      → state_at c' id ≡ some new
      → ((j : SibId) → (j ≡ id) ⊎ (state_at c' j ≡ state_at c j))
      → Moves id s msg c c'

-- The guards refuse what the protocol does not grant.
after_features-refused :
    (st new : SibRouterState) → after_features st ≡ none → ¬ IsGranted features_request st new
after_features-refused _ _ e features_first = cc
after_features-refused _ _ e features_second = cc

after_redistribute-refused :
    (st new : SibRouterState)
    → after_redistribute st ≡ none
    → ¬ IsGranted redistribute_request st new
after_redistribute-refused _ _ e redistribute_first = cc
after_redistribute-refused _ _ e redistribute_second = cc
after_redistribute-refused _ _ e redistribute_last = cc

after_if_address-refused :
    (st new : SibRouterState) → after_if_address st ≡ none → ¬ IsGranted if_address_req st new
after_if_address-refused _ _ e addresses_second = cc
after_if_address-refused _ _ e addresses_last = cc

-- Nothing is due for a packet of another type.
other_type :
    (s : SibRouter) (msg : Rfpbuf) (o : Option RfpType)
    → rh_type msg ≡ o
    → o ≢ some features_request
    → o ≢ some redistribute_request
    → o ≢ some if_address_req
    → (new : SibRouterState) → ¬ IsDue s msg new
other_type s msg o e f r a new due = granted_type due.request due.granted (sym e ∙ due.announced)
  where
    granted_type : (t : RfpType) {st st' : SibRouterState} → IsGranted t st st' → o ≡ some t → ⊥
    granted_type _ features_first k = f k
    granted_type _ features_second k = f k
    granted_type _ redistribute_first k = r k
    granted_type _ redistribute_second k = r k
    granted_type _ redistribute_last k = r k
    granted_type _ addresses_second k = a k
    granted_type _ addresses_last k = a k

-- Nothing is due for a request that the state of its sender refuses.
refused_type :
    (s : SibRouter) (msg : Rfpbuf) (t : RfpType)
    → rh_type msg ≡ some t
    → ((new : SibRouterState) → ¬ IsGranted t s.state new)
    → (new : SibRouterState) → ¬ IsDue s msg new
refused_type s msg t e none_granted new due = none_granted new (
    subst (λ u. IsGranted u s.state new) (some-injective due.request t (sym due.announced ∙ e))
      due.granted)

kept-Moves :
    (id : SibId) (s : SibRouter) (msg : Rfpbuf) (c : Controller) (m : Option Controller)
    → ((new : SibRouterState) → ¬ IsDue s msg new)
    → Holds (Keeps c) m
    → Holds (Moves id s msg c) m
kept-Moves id s msg c m none_due h =
    Holds-map (Keeps c) (Moves id s msg c) m (λ c' k. stays k none_due) h

module _ (c : Controller) (id : SibId) (s : SibRouter) (msg : Rfpbuf)
    (here : get_sib c id ≡ some s) where
  granted-Moves :
      (t : RfpType) (new : SibRouterState) (os : List Output)
      → rh_type msg ≡ some t
      → rh_xid msg ≡ s.current_egress_xid
      → IsGranted t s.state new
      → Moves id s msg c (state_transition (emit c os) id (next_egress s) new)
  granted-Moves t new os ht hx g =
      grants new (record { request = t; announced = ht; in_order = hx; granted = g })
        (ap (λ o. o >>= λ r. some r.state)
          (get_sib-state_transition (emit c os) id s (next_egress s) new
            (get_sib-emit c id os ∙ here)))
        others
    where
      others :
          (j : SibId)
          → (j ≡ id)
            ⊎ (state_at (state_transition (emit c os) id (next_egress s) new) j ≡ state_at c j)
      others j = elim (transition_other (emit c os) id j (next_egress s) new) [
        | inl e ↦ inl e
        | inr e ↦ inr (e ∙ emit-Keeps c os j)
      ]

  features-Moves :
      (o : Option SibRouterState)
      → rh_type msg ≡ some features_request
      → rh_xid msg ≡ s.current_egress_xid
      → Holds (IsGranted features_request s.state) o
      → (o ≡ none → (new : SibRouterState) → ¬ IsGranted features_request s.state new)
      → Moves id s msg c (grant_features o c id s (rh_xid msg))
  unfolding grant_features
  features-Moves none ht hx g n =
      stays (Keeps-refl c) (refused_type s msg features_request ht (n refl))
  features-Moves (some new) ht hx g n = granted-Moves features_request new _ ht hx g

  redistribute-Moves :
      (o : Option SibRouterState)
      → rh_type msg ≡ some redistribute_request
      → rh_xid msg ≡ s.current_egress_xid
      → Holds (IsGranted redistribute_request s.state) o
      → (o ≡ none → (new : SibRouterState) → ¬ IsGranted redistribute_request s.state new)
      → Moves id s msg c (grant_redistribute o c id s (rh_xid msg))
  unfolding grant_redistribute
  redistribute-Moves none ht hx g n =
      stays (Keeps-refl c) (refused_type s msg redistribute_request ht (n refl))
  redistribute-Moves (some new) ht hx g n = granted-Moves redistribute_request new _ ht hx g

  addresses-Moves :
      (o : Option SibRouterState) (os : List Output)
      → rh_type msg ≡ some if_address_req
      → rh_xid msg ≡ s.current_egress_xid
      → Holds (IsGranted if_address_req s.state) o
      → (o ≡ none → (new : SibRouterState) → ¬ IsGranted if_address_req s.state new)
      → Moves id s msg c (transit o (emit c os) id (next_egress s))
  addresses-Moves none os ht hx g n =
      stays
        (λ j.
          put_sib-Keeps (emit c os) id s (next_egress s) (get_sib-emit c id os ∙ here) refl j
          ∙ emit-Keeps c os j)
        (refused_type s msg if_address_req ht (n refl))
  addresses-Moves (some new) os ht hx g n = granted-Moves if_address_req new os ht hx g

  out_of_order : (rh_xid msg == s.current_egress_xid) ≡ false → rh_xid msg ≢ s.current_egress_xid
  out_of_order e k = let same = (==_iff (rh_xid msg) s.current_egress_xid).1 k in absurd cc

  -- A request under its test of the transaction id.
  in_order-Moves :
      (c' : Controller)
      → (rh_xid msg ≡ s.current_egress_xid → Moves id s msg c c')
      → Moves id s msg c (if rh_xid msg == s.current_egress_xid then c' else c)
  in_order-Moves c' h = elim (Bool-cases (rh_xid msg == s.current_egress_xid)) [
    | inl e ↦ rw e (h ((==_iff _ _).0 e))
    | inr e ↦ rw e (stays (Keeps-refl c) (λ new due. out_of_order e due.in_order))
  ]

  dispatch-Moves :
      (o : Option RfpType) → rh_type msg ≡ o → Holds (Moves id s msg c) (dispatch o c id s msg)
  unfolding dispatch on_features_request on_if_address_req on_redistribute_request on_leader_elect
  dispatch-Moves (some features_request) e = in_order-Moves _ λ x.
      features-Moves (after_features s.state) e x (after_features-IsGranted s.state)
        (λ h new. after_features-refused s.state new h)
  dispatch-Moves (some if_address_req) e = in_order-Moves _ λ x.
      addresses-Moves (after_if_address s.state) _ e x (after_if_address-IsGranted s.state)
        (λ h new. after_if_address-refused s.state new h)
  dispatch-Moves (some redistribute_request) e = in_order-Moves _ λ x.
      redistribute-Moves (after_redistribute s.state) e x (after_redistribute-IsGranted s.state)
        (λ h new. after_redistribute-refused s.state new h)
  dispatch-Moves (some ipv6_route_set_request) e =
      kept-Moves id s msg c (queue_msg c id s msg)
        (other_type s msg _ e (λ k. cc) (λ k. cc) (λ k. cc)) (queue_msg-Keeps c id s msg here)
  dispatch-Moves (some forward_ospf6) e =
      kept-Moves id s msg c (on_forward_ospf6 c id s msg)
        (other_type s msg _ e (λ k. cc) (λ k. cc) (λ k. cc))
        (on_forward_ospf6-Keeps c id s msg here)
  dispatch-Moves (some forward_bgp) e =
      stays (emit-Keeps c _) (other_type s msg _ e (λ k. cc) (λ k. cc) (λ k. cc))
  dispatch-Moves (some ack) e =
      stays (on_ack-Keeps c id s (rh_xid msg) here)
        (other_type s msg _ e (λ k. cc) (λ k. cc) (λ k. cc))
  dispatch-Moves (some redistribute_leader_elect) e =
      kept-Moves id s msg c (name_leader (get_or msg header_size 0 == 1) c id s)
        (other_type s msg _ e (λ k. cc) (λ k. cc) (λ k. cc))
        (name_leader-Keeps (get_or msg header_size 0 == 1) c id s here)
  dispatch-Moves none e = stays (Keeps-refl c) (other_type s msg _ e (λ k. cc) (λ k. cc) (λ k. cc))
  dispatch-Moves (some _) e =
      stays (Keeps-refl c) (other_type s msg _ e (λ k. cc) (λ k. cc) (λ k. cc))

-- A packet that does not fault, and that is a request of the handshake with the transaction id that
-- is expected of its sender, in a state that grants it, leads the sender, and no other sibling, to
-- the state that the protocol names. Every other packet that does not fault keeps the states of all
-- siblings.
pub process_packet-Moves :
    (c : Controller) (id : SibId) (s : SibRouter) (msg : Rfpbuf)
    → get_sib c id ≡ some s
    → Holds (Moves id s msg c) (process_packet c id msg)
unfolding process_packet
process_packet-Moves c id s msg here = rw here (dispatch-Moves c id s msg here (rh_type msg) refl)
