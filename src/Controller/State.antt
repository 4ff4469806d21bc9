-- ===== src/Controller/State.antt =====
-- controller/sib_router.h and the file-level state of controller/sib_router.c.
use harry.Base.{ℕ, List, Option, Bool, true, false, get_elem?, set, ◌++◌}
use harry.Message.{Rfpbuf}

-- enum sib_router_state.
pub data SibRouterState : Type 0 where
  connecting connected features_req_rcvd redistribute_req_rcvd : SibRouterState
  features_redis_req_rcvd features_addr_req_rcvd routing disconnected : SibRouterState

abbrev pub is_routing : SibRouterState → Bool
is_routing routing = true
is_routing _ = false

abbrev pub is_disconnected : SibRouterState → Bool
is_disconnected disconnected = true
is_disconnected _ = false

-- struct sib_router, less the connection, its name and the timeout thread, which is never started.
pub record SibRouter : Type 0 where
  pub state : SibRouterState
  pub current_ingress_xid : ℕ
  pub current_ingress_ack_rcvd : Bool
  pub current_egress_xid : ℕ
  pub waiting_on_first_egress_msg : Bool
  pub msgs_rcvd_queue : List Rfpbuf
  pub is_leader : Bool

-- VOTER_ANY and VOTER_ALL.
pub data VoterType : Type 0 where
  voter_any voter_all : VoterType

-- An entry of `ospf6_siblings` or of `bgp_siblings`, which a `struct sib_router *` points to.
pub data SibId : Type 0 where
  ospf6_sib bgp_sib : ℕ → SibId

pub record Address : Type 0 where
  pub family : ℕ
  pub prefixlen : ℕ
  pub prefix : List ℕ

pub record Interface : Type 0 where
  pub name : List ℕ
  pub ifindex : ℕ
  pub up_state : ℕ
  pub mtu : ℕ
  pub connected : List Address

-- struct router as far as the siblings' replies read it.
pub record Router : Type 0 where
  pub port_list : List Interface

pub record Route : Type 0 where
  pub dest : Address
  pub distance : ℕ

-- What the controller sends or stores.
pub data Output : Type 0 where
  router_forward : ℕ → Rfpbuf → Output
  sib_send : SibId → Rfpbuf → Output
  send_features : SibId → ℕ → List Interface → Output
  send_address : SibId → ℕ → ℕ → Address → Output
  send_route : SibId → ℕ → Address → Output
  db_set_egress_xid : ℕ → Output

pub record Controller : Type 0 where
  pub ospf6_siblings : List SibRouter
  pub bgp_siblings : List SibRouter
  pub n_ospf6_siblings_routing : ℕ
  pub leader_sibling : Option SibId
  pub num_sibs_conf : ℕ
  pub voter_type_conf : VoterType
  pub routers : List Router
  pub rib : List Route
  pub out : List Output

unfoldable pub get_sib : Controller → SibId → Option SibRouter
get_sib c (ospf6_sib i) = get_elem? c.ospf6_siblings i
get_sib c (bgp_sib i) = get_elem? c.bgp_siblings i

unfoldable pub put_sib : Controller → SibId → SibRouter → Controller
put_sib c (ospf6_sib i) s = record c { ospf6_siblings = set c.ospf6_siblings i s }
put_sib c (bgp_sib i) s = record c { bgp_siblings = set c.bgp_siblings i s }

abbrev pub emit : Controller → List Output → Controller
emit c os = record c { out = c.out ++ os }
