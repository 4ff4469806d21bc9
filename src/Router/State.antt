-- ===== src/Router/State.antt =====
-- controller/router.h, with the interface list of lib/if.c.
use harry.Base.{ℕ, List, [], ◌∷◌, Option, none, some, Bool, true, false, ◌&&◌, ◌==◌, if◌then◌else◌}
use harry.Message.{Rfpbuf}
use harry.Controller.State.{Interface}

-- enum router_state.
pub data RouterState : Type 0 where
  r_connecting r_connected r_features_reply r_stats_routes_reply : RouterState
  r_feat_addr_reply r_feat_stats_reply r_routing : RouterState

-- A route of a stats reply, as it is added to the RIB.
pub record Ipv4Route : Type 0 where
  pub prefix : List ℕ
  pub prefixlen : ℕ
  pub metric : ℕ
  pub distance : ℕ
  pub table : ℕ

-- What the connection sends, or hands to the siblings and to the RIB.
pub data Output : Type 0 where
  features_request addresses_request stats_routes_request : Output
  add_route : Ipv4Route → Output
  to_ospf6_siblings : Rfpbuf → ℕ → Output
  to_bgp_siblings : Rfpbuf → Output

-- struct router. An entry of `port_list` points to an interface of `iflist`, whose names differ: it is
-- given by the name.
pub record Router : Type 0 where
  pub state : RouterState
  pub iflist : List Interface
  pub port_list : List (List ℕ)
  pub out : List Output

-- strcmp on two names.
unfoldable pub same_name : List ℕ → List ℕ → Bool
same_name [] [] = true
same_name [] (y ∷ ys) = false
same_name (x ∷ xs) [] = false
same_name (x ∷ xs) (y ∷ ys) = x == y && same_name xs ys

-- if_create: the memory is zeroed.
unfoldable pub if_create : List ℕ → Interface
if_create name = record { name = name; ifindex = 0; up_state = 0; mtu = 0; connected = [] }

-- A write through the pointer that if_get_by_name returns.
unfoldable pub at_name : List ℕ → (Interface → Interface) → List Interface → List Interface
unfolding same_name if_create
at_name name f [] = f (if_create name) ∷ []
at_name name f (i ∷ is) = if same_name name i.name then f i ∷ is else i ∷ at_name name f is

-- A write through the pointer that if_lookup_by_index returns; `none` where there is no interface.
unfoldable pub at_index : ℕ → (Interface → Interface) → List Interface → Option (List Interface)
at_index index f [] = none
at_index index f (i ∷ is) = elim (index == i.ifindex) [
  | true ↦ some (f i ∷ is)
  | false ↦ elim (at_index index f is) [ none ↦ none | some js ↦ some (i ∷ js) ]
]
