-- ===== src/Router/Features.antt =====
-- router_create, router_handshake, and the replies with the ports and the routes of a router.
use harry.Base.{
  ℕ, zero, suc, ◌+◌, ◌-◌, ◌/◌, ◌%◌, List, [], ◌∷◌, ◌++◌, Option, none, some, Bool, ◌==◌, ltb,
  if◌then◌else◌, take, drop,
}
use harry.Message.{Rfpbuf, rh_length, htonl, htons, load_u16, load_u32, header_size}
use harry.Router.State.{
  r_connecting, r_connected, Router, Ipv4Route, Output, features_request, addresses_request,
  stats_routes_request, add_route, at_name,
}

unfoldable pub router_create : Router
router_create = record { state = r_connecting; iflist = []; port_list = []; out = [] }

-- router_run in R_CONNECTING, with the result of rconn_exchanged_hellos.
unfoldable pub router_handshake : Router → Bool → Router
router_handshake rt hellos =
    if hellos
    then record rt {
      state = r_connected;
      out = rt.out ++ features_request ∷ stats_routes_request ∷ [];
    }
    else rt

abbrev pub max_port_name_len : ℕ
max_port_name_len = 20

-- A name ends before its first zero byte.
unfoldable pub c_string : List ℕ → List ℕ
c_string [] = []
c_string (b ∷ bs) = if b == 0 then [] else b ∷ c_string bs

-- router_process_phy_port on the port at byte `p`.
unfoldable pub router_process_phy_port : Router → Rfpbuf → ℕ → Router
unfolding c_string at_name
router_process_phy_port rt msg p =
    let name = c_string (take max_port_name_len (drop (p + 2) msg)) in
    record rt {
      iflist =
          at_name name
            (λ ifp. record ifp {
              ifindex = htons (load_u16 msg p);
              up_state = htonl (load_u32 msg (p + 24));
              mtu = htonl (load_u32 msg (p + 28));
            })
            rt.iflist;
      port_list = rt.port_list ++ name ∷ [];
    }

abbrev pub phy_port_size : ℕ
phy_port_size = 32

abbrev pub ports_offset : ℕ
ports_offset = 16

unfoldable pub process_ports : ℕ → Router → Rfpbuf → ℕ → Router
unfolding router_process_phy_port
process_ports zero rt msg p = rt
process_ports (suc n) rt msg p =
    process_ports n (router_process_phy_port rt msg p) msg (p + phy_port_size)

-- router_process_features. A length below the offset of the ports wraps around to a number of ports
-- that no message holds.
unfoldable pub router_process_features : Router → Rfpbuf → Option Router
unfolding process_ports
router_process_features rt msg =
    if ltb (rh_length msg) ports_offset
    then none
    else let rt' =
        process_ports ((rh_length msg - ports_offset) / phy_port_size) rt msg ports_offset in
      some (record rt' { out = rt'.out ++ addresses_request ∷ [] })

abbrev pub route_size : ℕ
route_size = 28

-- router_process_route on the route at byte `p`: the metric has 32 bits and is read by ntohs, the
-- distance has 16 and is read by ntohl.
unfoldable pub router_process_route : Rfpbuf → ℕ → Ipv4Route
router_process_route msg p = record {
  prefix = take 4 (drop (p + 8) msg);
  prefixlen = htons (load_u16 msg (p + 4)) % 256;
  metric = htons (load_u32 msg (p + 20) % 65536);
  distance = htonl (load_u16 msg (p + 16)) % 256;
  table = htonl (load_u32 msg (p + 24));
}

unfoldable pub process_routes : ℕ → Rfpbuf → ℕ → List Output
unfolding router_process_route
process_routes zero msg p = []
process_routes (suc n) msg p =
    add_route (router_process_route msg p) ∷ process_routes n msg (p + route_size)

-- router_process_stats_routes.
unfoldable pub router_process_stats_routes : Router → Rfpbuf → Option Router
unfolding process_routes
router_process_stats_routes rt msg =
    if ltb (rh_length msg) header_size
    then none
    else some (record rt {
      out = rt.out ++ process_routes ((rh_length msg - header_size) / route_size) msg header_size;
    })
