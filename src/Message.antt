-- ===== src/Message.antt =====
-- The messages of the RouteFlow protocol: lib/routeflow-common.h (types and header),
-- lib/rfp-msgs.c (allocation) and lib/rfpbuf.h (comparison). A buffer is the list of the bytes
-- in use; words are stored as a little-endian host stores them.
pub mod Laws
pub mod Bytes
use harry.Base.{
  ℕ, zero, suc, ◌+◌, ◌-◌, ◌*◌, ◌/◌, ◌%◌, ◌<◌, ◌≡◌, refl, Bool, true, false, ◌&&◌, ◌↔◌, Option, none,
  some, List, [], ◌∷◌, ◌++◌, arith, ◌==◌, length, get_or, set,
}

-- enum rfp_type, in the order of its values from 0.
pub data RfpType : Type 0 where
  hello ack leader_elect replica_ex error echo_request echo_reply vendor : RfpType
  features_request features_reply addresses_request addresses_reply : RfpType
  get_config_request get_config_reply set_config : RfpType
  stats_routes_request stats_routes_reply redistribute_request : RfpType
  ipv4_route_add ipv6_route_set_request if_address_req : RfpType
  ipv4_address_add ipv6_address_add : RfpType
  forward_ospf6 forward_bgp redistribute_leader_elect : RfpType

abbrev rfp_types : List RfpType
rfp_types =
    hello ∷ ack ∷ leader_elect ∷ replica_ex ∷ error ∷ echo_request ∷ echo_reply ∷ vendor
    ∷ features_request ∷ features_reply ∷ addresses_request ∷ addresses_reply ∷ get_config_request
    ∷ get_config_reply ∷ set_config ∷ stats_routes_request ∷ stats_routes_reply
    ∷ redistribute_request ∷ ipv4_route_add ∷ ipv6_route_set_request ∷ if_address_req
    ∷ ipv4_address_add ∷ ipv6_address_add ∷ forward_ospf6 ∷ forward_bgp ∷ redistribute_leader_elect
    ∷ []

nth_type : List RfpType → ℕ → Option RfpType
nth_type [] n = none
nth_type (t ∷ ts) zero = some t
nth_type (t ∷ ts) (suc n) = nth_type ts n

-- The constant that a `switch` on `rh->type` finds.
unfoldable pub rfp_type_of : ℕ → Option RfpType
unfolding nth_type
rfp_type_of n = nth_type rfp_types n

unfoldable pub type_code : RfpType → ℕ
type_code hello = 0
type_code ack = 1
type_code leader_elect = 2
type_code replica_ex = 3
type_code error = 4
type_code echo_request = 5
type_code echo_reply = 6
type_code vendor = 7
type_code features_request = 8
type_code features_reply = 9
type_code addresses_request = 10
type_code addresses_reply = 11
type_code get_config_request = 12
type_code get_config_reply = 13
type_code set_config = 14
type_code stats_routes_request = 15
type_code stats_routes_reply = 16
type_code redistribute_request = 17
type_code ipv4_route_add = 18
type_code ipv6_route_set_request = 19
type_code if_address_req = 20
type_code ipv4_address_add = 21
type_code ipv6_address_add = 22
type_code forward_ospf6 = 23
type_code forward_bgp = 24
type_code redistribute_leader_elect = 25

-- struct rfpbuf: the bytes from `data` on, `size` of them.
abbrev pub Rfpbuf : Type 0
Rfpbuf = List ℕ

-- How a word lies in memory, and how it is read back.
abbrev pub store_u16 : ℕ → List ℕ
store_u16 w = (w % 256) ∷ (w / 256 % 256) ∷ []

abbrev pub store_u32 : ℕ → List ℕ
store_u32 w = (w % 256) ∷ (w / 256 % 256) ∷ (w / 65536 % 256) ∷ (w / 16777216 % 256) ∷ []

abbrev pub load_u32 : List ℕ → ℕ → ℕ
load_u32 b i =
    get_or b i 0
    + 256 * get_or b (i + 1) 0
    + 65536 * get_or b (i + 2) 0
    + 16777216 * get_or b (i + 3) 0

abbrev pub load_u16 : List ℕ → ℕ → ℕ
load_u16 b i = get_or b i 0 + 256 * get_or b (i + 1) 0

-- The swap of the four bytes; `ntohl` is the same function.
unfoldable pub htonl : ℕ → ℕ
htonl w =
    16777216 * (w % 256) + 65536 * (w / 256 % 256) + 256 * (w / 65536 % 256) + w / 16777216 % 256

unfoldable pub htons : ℕ → ℕ
htons w = 256 * (w % 256) + w / 256 % 256

abbrev pub zeros : ℕ → List ℕ
zeros zero = []
zeros (suc n) = 0 ∷ zeros n

abbrev pub header_size : ℕ
header_size = 8

abbrev pub rfp10_version : ℕ
rfp10_version = 1

-- routeflow_put__ on a new buffer: header, then zeros up to the length.
unfoldable pub routeflow_alloc_xid : RfpType → ℕ → ℕ → ℕ → Rfpbuf
routeflow_alloc_xid type version xid len =
    (version ∷ type_code type ∷ store_u16 (htons len) ++ store_u32 xid) ++ zeros (len - header_size)

-- rfpmsg_update_length.
unfoldable pub rfpmsg_update_length : Rfpbuf → Rfpbuf
rfpmsg_update_length msg = let n = htons (length msg) in set (set msg 2 (n % 256)) 3 (n / 256 % 256)

-- `rh->type`, and `ntohl(rh->xid)`. A received buffer holds at least a header.
unfoldable pub rh_type : Rfpbuf → Option RfpType
rh_type msg = rfp_type_of (get_or msg 1 0)

unfoldable pub rh_xid : Rfpbuf → ℕ
rh_xid msg = htonl (load_u32 msg 4)

unfoldable pub rh_length : Rfpbuf → ℕ
rh_length msg = htons (load_u16 msg 2)

-- memcmp(a, b, n) == 0 over two buffers of one size.
unfoldable pub memcmp_eq : List ℕ → List ℕ → Bool
memcmp_eq [] _ = true
memcmp_eq (x ∷ xs) [] = true
memcmp_eq (x ∷ xs) (y ∷ ys) = x == y && memcmp_eq xs ys

unfoldable pub rfpbuf_equal : Rfpbuf → Rfpbuf → Bool
unfolding memcmp_eq
rfpbuf_equal a b = length a == length b && memcmp_eq a b
