-- ===== src/Router/Replies.antt =====
-- The states of a router against what has been heard from it.
use harry.Base.{
  ℕ, ◌≡◌, refl, ap, ◌∙◌, List, [], ◌∷◌, Option, none, some, Bool, true, false, ◌||◌, Holds,
  Holds-map, ◌>>=◌, Holds-then,
}
use harry.Message.{
  Rfpbuf, RfpType, features_reply, addresses_reply, stats_routes_reply, forward_ospf6, forward_bgp,
  rh_type,
}
use harry.Router.State.{
  RouterState, r_connecting, r_connected, r_features_reply, r_stats_routes_reply, r_feat_addr_reply,
  r_feat_stats_reply, r_routing, Router,
}
use harry.Router.Features.{router_process_features, router_process_stats_routes}
use harry.Router.Addresses.{router_process_addresses}
use harry.Router.Packet.{
  after_features, after_addresses, after_stats_routes, enter, with_iflist, on_features_reply,
  on_addresses_reply, on_stats_routes_reply, on_forward_ospf6, on_forward_bgp, dispatch,
  router_process_packet,
}

-- Which of the three replies have been heard since the handshake.
pub record Heard : Type 0 where
  pub features : Bool
  pub addresses : Bool
  pub stats : Bool

abbrev pub nothing_yet : Heard
nothing_yet = record { features = false; addresses = false; stats = false }

abbrev pub everything : Heard
everything = record { features = true; addresses = true; stats = true }

-- What a state stands for; `none` is before the handshake.
abbrev pub heard_of : RouterState → Option Heard
heard_of r_connecting = none
heard_of r_connected = some nothing_yet
heard_of r_features_reply = some (record { features = true; addresses = false; stats = false })
heard_of r_stats_routes_reply = some (record { features = false; addresses = false; stats = true })
heard_of r_feat_addr_reply = some (record { features = true; addresses = true; stats = false })
heard_of r_feat_stats_reply = some (record { features = true; addresses = false; stats = true })
heard_of r_routing = some everything

-- The specification: the addresses count only after the features, the other replies in any order.
abbrev pub hear : Option RfpType → Heard → Heard
hear (some features_reply) h = record h { features = true }
hear (some addresses_reply) h = record h { addresses = h.addresses || h.features }
hear (some stats_routes_reply) h = record h { stats = true }
hear _ h = h

abbrev pub hears : Option RfpType → Option Heard → Option Heard
hears t none = none
hears t (some h) = some (hear t h)

abbrev next_of : Option RouterState → RouterState → RouterState
next_of none st = st
next_of (some new) st = new

heard-features :
    (st : RouterState)
    → heard_of (next_of (after_features st) st) ≡ hears (some features_reply) (heard_of st)
heard-features r_connected = refl
heard-features r_stats_routes_reply = refl
heard-features _ = refl

heard-addresses :
    (st : RouterState)
    → heard_of (next_of (after_addresses st) st) ≡ hears (some addresses_reply) (heard_of st)
heard-addresses r_features_reply = refl
heard-addresses r_feat_stats_reply = refl
heard-addresses _ = refl

heard-stats :
    (st : RouterState)
    → heard_of (next_of (after_stats_routes st) st) ≡ hears (some stats_routes_reply) (heard_of st)
heard-stats r_connected = refl
heard-stats r_features_reply = refl
heard-stats r_feat_addr_reply = refl
heard-stats _ = refl

heard-other : (st : RouterState) → heard_of st ≡ hears none (heard_of st)
heard-other r_connecting = refl
heard-other _ = refl

-- The router is in the state.
abbrev Is : RouterState → Router → Type 0
Is st rt = rt.state ≡ st

enter-Is : (new : RouterState) (o : Option Router) → Holds (Is new) (enter new o)
enter-Is new none = tt
enter-Is new (some rt) = refl

on_features_reply-Is :
    (o : Option RouterState) (rt : Router) (msg : Rfpbuf)
    → Holds (Is (next_of o rt.state)) (on_features_reply o rt msg)
unfolding on_features_reply
on_features_reply-Is none rt msg = refl
on_features_reply-Is (some new) rt msg = enter-Is new (router_process_features rt msg)

on_addresses_reply-Is :
    (o : Option RouterState) (rt : Router) (msg : Rfpbuf)
    → Holds (Is (next_of o rt.state)) (on_addresses_reply o rt msg)
unfolding on_addresses_reply
on_addresses_reply-Is none rt msg = refl
on_addresses_reply-Is (some new) rt msg =
    enter-Is new (with_iflist rt (router_process_addresses msg rt.iflist))

on_stats_routes_reply-Is :
    (o : Option RouterState) (rt : Router) (msg : Rfpbuf)
    → Holds (Is (next_of o rt.state)) (on_stats_routes_reply o rt msg)
unfolding on_stats_routes_reply
on_stats_routes_reply-Is none rt msg = refl
on_stats_routes_reply-Is (some new) rt msg = enter-Is new (router_process_stats_routes rt msg)

on_forward_ospf6-Is :
    (st : RouterState) (rt : Router) (msg : Rfpbuf) (xid : ℕ)
    → (on_forward_ospf6 st rt msg xid).state ≡ rt.state
unfolding on_forward_ospf6
on_forward_ospf6-Is r_routing rt msg xid = refl
on_forward_ospf6-Is _ rt msg xid = refl

on_forward_bgp-Is :
    (st : RouterState) (rt : Router) (msg : Rfpbuf) → (on_forward_bgp st rt msg).state ≡ rt.state
unfolding on_forward_bgp
on_forward_bgp-Is r_routing rt msg = refl
on_forward_bgp-Is _ rt msg = refl

-- The packet has been heard.
abbrev Reflects : Option RfpType → Router → Router → Type 0
Reflects t rt rt' = heard_of rt'.state ≡ hears t (heard_of rt.state)

reflects :
    (t : Option RfpType) (rt : Router) (st : RouterState) (o : Option Router)
    → heard_of st ≡ hears t (heard_of rt.state)
    → Holds (Is st) o
    → Holds (Reflects t rt) o
reflects t rt st o h k = Holds-map (Is st) (Reflects t rt) o (λ rt' e. ap heard_of e ∙ h) k

dispatch-Reflects :
    (t : Option RfpType) (rt : Router) (msg : Rfpbuf) (xid : ℕ)
    → Holds (Reflects t rt) (dispatch t rt msg xid)
unfolding dispatch
dispatch-Reflects (some features_reply) rt msg xid =
    reflects (some features_reply) rt _ (on_features_reply (after_features rt.state) rt msg)
      (heard-features rt.state) (on_features_reply-Is (after_features rt.state) rt msg)
dispatch-Reflects (some addresses_reply) rt msg xid =
    reflects (some addresses_reply) rt _ (on_addresses_reply (after_addresses rt.state) rt msg)
      (heard-addresses rt.state) (on_addresses_reply-Is (after_addresses rt.state) rt msg)
dispatch-Reflects (some stats_routes_reply) rt msg xid =
    reflects (some stats_routes_reply) rt _
      (on_stats_routes_reply (after_stats_routes rt.state) rt msg) (heard-stats rt.state)
      (on_stats_routes_reply-Is (after_stats_routes rt.state) rt msg)
dispatch-Reflects (some forward_ospf6) rt msg xid =
    ap heard_of (on_forward_ospf6-Is rt.state rt msg xid) ∙ heard-other rt.state
dispatch-Reflects (some forward_bgp) rt msg xid =
    ap heard_of (on_forward_bgp-Is rt.state rt msg) ∙ heard-other rt.state
dispatch-Reflects _ rt msg xid = heard-other rt.state

-- A list of packets, each with the transaction id for its copy.
abbrev pub process_packets : Router → List (Rfpbuf × ℕ) → Option Router
process_packets rt [] = some rt
process_packets rt (m ∷ ms) = router_process_packet rt m.0 m.1 >>= λ rt'. process_packets rt' ms

abbrev pub hear_all : List (Rfpbuf × ℕ) → Option Heard → Option Heard
hear_all [] h = h
hear_all (m ∷ ms) h = hear_all ms (hears (rh_type m.0) h)

-- Over any packets that are processed without a fault, the states of a router stand for the replies
-- that have been heard: in any order, but for the addresses, which count only after the features.
pub process_packets-heard :
    (rt : Router) (msgs : List (Rfpbuf × ℕ))
    → Holds
        (λ rt'. heard_of rt'.state ≡ hear_all msgs (heard_of rt.state))
        (process_packets rt msgs)
process_packets-heard rt [] = refl
process_packets-heard rt (m ∷ ms) =
    Holds-then (Reflects (rh_type m.0) rt) _ (router_process_packet rt m.0 m.1) _
      (unfold router_process_packet in dispatch-Reflects (rh_type m.0) rt m.0 m.1)
      λ rt' e.
        Holds-map _ _ (process_packets rt' ms) (λ r k. k ∙ ap (hear_all ms) e)
          (process_packets-heard rt' ms)
