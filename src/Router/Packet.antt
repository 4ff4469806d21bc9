-- ===== src/Router/Packet.antt =====
-- router_process_packet of controller/router.c.
use harry.Base.{ℕ, [], ◌∷◌, ◌++◌, Option, none, some, take, drop}
use harry.Message.{
  Rfpbuf, RfpType, features_reply, addresses_reply, stats_routes_reply, forward_ospf6, forward_bgp,
  rh_type, store_u32, htonl,
}
use harry.Router.State.{
  RouterState, r_connected, r_features_reply, r_stats_routes_reply, r_feat_addr_reply,
  r_feat_stats_reply, r_routing, Router, to_ospf6_siblings, to_bgp_siblings,
}
use harry.Router.Features.{router_process_features, router_process_stats_routes}
use harry.Router.Addresses.{Parse, returns, faults, runs_on, router_process_addresses}

-- The states after the three replies; `none` where the guard refuses the reply.
abbrev pub after_features : RouterState → Option RouterState
after_features r_connected = some r_features_reply
after_features r_stats_routes_reply = some r_feat_stats_reply
after_features _ = none

abbrev pub after_addresses : RouterState → Option RouterState
after_addresses r_features_reply = some r_feat_addr_reply
after_addresses r_feat_stats_reply = some r_routing
after_addresses _ = none

abbrev pub after_stats_routes : RouterState → Option RouterState
after_stats_routes r_connected = some r_stats_routes_reply
after_stats_routes r_features_reply = some r_feat_stats_reply
after_stats_routes r_feat_addr_reply = some r_routing
after_stats_routes _ = none

abbrev pub enter : RouterState → Option Router → Option Router
enter new none = none
enter new (some rt) = some (record rt { state = new })

-- A parse that does not come to its end stops the controller, as a null pointer does.
abbrev pub with_iflist : Router → Parse → Option Router
with_iflist rt (returns ifs) = some (record rt { iflist = ifs })
with_iflist rt faults = none
with_iflist rt (runs_on p) = none

unfoldable pub on_features_reply : Option RouterState → Router → Rfpbuf → Option Router
unfolding router_process_features
on_features_reply none rt msg = some rt
on_features_reply (some new) rt msg = enter new (router_process_features rt msg)

unfoldable pub on_addresses_reply : Option RouterState → Router → Rfpbuf → Option Router
unfolding router_process_addresses
on_addresses_reply none rt msg = some rt
on_addresses_reply (some new) rt msg =
    enter new (with_iflist rt (router_process_addresses msg rt.iflist))

unfoldable pub on_stats_routes_reply : Option RouterState → Router → Rfpbuf → Option Router
unfolding router_process_stats_routes
on_stats_routes_reply none rt msg = some rt
on_stats_routes_reply (some new) rt msg = enter new (router_process_stats_routes rt msg)

-- The clone of a message with the transaction id of its copy to the siblings.
unfoldable pub with_xid : Rfpbuf → ℕ → Rfpbuf
with_xid msg xid = take 4 msg ++ (store_u32 (htonl xid) ++ drop 8 msg)

unfoldable pub on_forward_ospf6 : RouterState → Router → Rfpbuf → ℕ → Router
unfolding with_xid
on_forward_ospf6 r_routing rt msg xid = record rt {
  out = rt.out ++ to_ospf6_siblings (with_xid msg xid) xid ∷ [];
}
on_forward_ospf6 _ rt msg xid = rt

unfoldable pub on_forward_bgp : RouterState → Router → Rfpbuf → Router
on_forward_bgp r_routing rt msg = record rt { out = rt.out ++ to_bgp_siblings msg ∷ [] }
on_forward_bgp _ rt msg = rt

-- The `switch`; `xid` is what db_get_unique_ingress_id returns.
unfoldable pub dispatch : Option RfpType → Router → Rfpbuf → ℕ → Option Router
unfolding on_features_reply on_addresses_reply on_stats_routes_reply on_forward_ospf6 on_forward_bgp
dispatch (some features_reply) rt msg xid = on_features_reply (after_features rt.state) rt msg
dispatch (some addresses_reply) rt msg xid = on_addresses_reply (after_addresses rt.state) rt msg
dispatch (some stats_routes_reply) rt msg xid =
    on_stats_routes_reply (after_stats_routes rt.state) rt msg
dispatch (some forward_ospf6) rt msg xid = some (on_forward_ospf6 rt.state rt msg xid)
dispatch (some forward_bgp) rt msg xid = some (on_forward_bgp rt.state rt msg)
dispatch _ rt msg xid = some rt

unfoldable pub router_process_packet : Router → Rfpbuf → ℕ → Option Router
unfolding dispatch
router_process_packet rt msg xid = dispatch (rh_type msg) rt msg xid
