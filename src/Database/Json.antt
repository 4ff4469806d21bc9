-- ===== src/Database/Json.antt =====
-- The JSON texts of ospf6-sibling/ospf6_db.c, of the packets in lib/routeflow-common.h and the LSA
-- headers in ospf6-sibling/ospf6_lsa.h. A packet is the bytes from its OSPF6 header on, and the
-- numbers of a text are those in memory, in network order.
use harry.Base.{
  ℕ, zero, suc, ◌+◌, ◌-◌, ◌*◌, ◌/◌, List, [], ◌∷◌, ◌++◌, map, Option, none, some, ltb,
  if◌then◌else◌, length, get_or, ◌>>=◌,
}
use harry.Message.{Rfpbuf, load_u16, load_u32, htons}
use harry.Database.Decimal.{Text, codes, print_int}

-- A member of an object, "name: value", and members with ", " between them.
abbrev pub member : Text → Text → Text
member name value = name ++ (codes ": " ++ value)

abbrev pub number : Text → ℕ → Text
number name n = member name (print_int n)

abbrev pub joined : Text → List Text → Text
joined last [] = last
joined last (t ∷ ts) = codes ", " ++ t ++ joined last ts

abbrev pub separated : List Text → Text → Text
separated [] last = last
separated (t ∷ ts) last = t ++ joined last ts

abbrev pub object : List Text → Text
object ms = codes "{" ++ separated ms (codes "}")

abbrev pub array : List Text → Text
array ts = codes "[" ++ separated ts (codes "]")

abbrev pub data_size : ℕ
data_size = 200

-- A text written to a buffer, with the null byte after it; `none` where it runs over the end.
abbrev pub fit : ℕ → Text → Option Text
fit size t = if ltb (length t) size then some t else none

-- ospf6_db_json_header.
unfoldable pub header_members : Rfpbuf → List Text
header_members msg =
    number (codes "version") (get_or msg 0 0)
    ∷ number (codes "type") (get_or msg 1 0)
    ∷ number (codes "length") (load_u16 msg 2)
    ∷ number (codes "router_id") (load_u32 msg 4)
    ∷ number (codes "area_id") (load_u32 msg 8)
    ∷ number (codes "checksum") (load_u16 msg 12)
    ∷ number (codes "instance_id") (get_or msg 14 0)
    ∷ number (codes "reserved") (get_or msg 15 0)
    ∷ []

unfoldable pub ospf6_db_json_header : Rfpbuf → Option Text
unfolding header_members
ospf6_db_json_header msg = fit data_size (object (header_members msg))

-- The offsets at which a packet holds `n` records of a size, from an offset on.
unfoldable pub offsets : ℕ → ℕ → ℕ → List ℕ
offsets size p zero = []
offsets size p (suc n) = p ∷ offsets size (p + size) n

-- The records of a size that end before OSPF6_MESSAGE_END.
unfoldable pub records : ℕ → ℕ → Rfpbuf → List ℕ
unfolding offsets
records size first msg = offsets size first ((htons (load_u16 msg 2) - first) / size)

-- The sizes of struct ospf6_header, and of that with ospf6_hello and ospf6_dbdesc; of a router id
-- and of struct ospf6_lsa_header.
abbrev pub header_end : ℕ
header_end = 16

abbrev pub hello_end : ℕ
hello_end = 36

abbrev pub dbdesc_end : ℕ
dbdesc_end = 28

abbrev pub router_id_size : ℕ
router_id_size = 4

abbrev pub lsa_header_size : ℕ
lsa_header_size = 20

unfoldable pub json_router_id : Rfpbuf → ℕ → Text
json_router_id msg p = object (number (codes "router_id") (load_u32 msg p) ∷ [])

unfoldable pub json_router_ids : Rfpbuf → Text
unfolding json_router_id records
json_router_ids msg = array (map (json_router_id msg) (records router_id_size hello_end msg))

unfoldable pub hello_members : Rfpbuf → Text → List Text
hello_members msg router_ids =
    number (codes "interface_id") (load_u32 msg 16)
    ∷ number (codes "priority") (get_or msg 20 0)
    ∷ number (codes "options_0") (get_or msg 21 0)
    ∷ number (codes "options_1") (get_or msg 22 0)
    ∷ number (codes "options_2") (get_or msg 23 0)
    ∷ number (codes "hello_interval") (load_u16 msg 24)
    ∷ number (codes "dead_interval") (load_u16 msg 26)
    ∷ number (codes "drouter") (load_u32 msg 28)
    ∷ number (codes "bdrouter") (load_u32 msg 32)
    ∷ member (codes "router_ids") router_ids
    ∷ []

-- The text that ospf6_db_put_hello writes.
unfoldable pub json_hello : Rfpbuf → Option Text
unfolding ospf6_db_json_header json_router_ids hello_members
json_hello msg = ospf6_db_json_header msg >>= λ header.
    fit data_size (json_router_ids msg) >>= λ router_ids.
    fit (data_size * 2) (object (hello_members msg router_ids)) >>= λ hello.
    fit (data_size * 3)
      (object (member (codes "header") header ∷ member (codes "hello") hello ∷ []))

abbrev pub lsa_members : Rfpbuf → ℕ → List Text
lsa_members msg p =
    number (codes "age") (load_u16 msg p)
    ∷ number (codes "type") (load_u16 msg (p + 2))
    ∷ number (codes "id") (load_u32 msg (p + 4))
    ∷ number (codes "adv_router") (load_u32 msg (p + 8))
    ∷ number (codes "seqnum") (load_u32 msg (p + 12))
    ∷ number (codes "checksum") (load_u16 msg (p + 16))
    ∷ number (codes "length") (load_u16 msg (p + 18))
    ∷ []

unfoldable pub json_lsa_header : Rfpbuf → ℕ → Text
json_lsa_header msg p = object (lsa_members msg p)

unfoldable pub json_lsa_headers : Rfpbuf → Text
unfolding json_lsa_header records
json_lsa_headers msg = array (map (json_lsa_header msg) (records lsa_header_size dbdesc_end msg))

unfoldable pub dbdesc_members : Rfpbuf → Text → List Text
dbdesc_members msg lsa_headers =
    number (codes "reserved1") (get_or msg 16 0)
    ∷ number (codes "options_0") (get_or msg 17 0)
    ∷ number (codes "options_1") (get_or msg 18 0)
    ∷ number (codes "options_2") (get_or msg 19 0)
    ∷ number (codes "ifmtu") (load_u16 msg 20)
    ∷ number (codes "reserved2") (get_or msg 22 0)
    ∷ number (codes "bits") (get_or msg 23 0)
    ∷ number (codes "seqnum") (load_u32 msg 24)
    ∷ member (codes "lsa_headers") lsa_headers
    ∷ []

-- The text that ospf6_db_put_dbdesc writes.
unfoldable pub json_dbdesc : Rfpbuf → Option Text
unfolding ospf6_db_json_header json_lsa_headers dbdesc_members
json_dbdesc msg = ospf6_db_json_header msg >>= λ header.
    fit (data_size * 4) (json_lsa_headers msg) >>= λ lsa_headers.
    fit (data_size * 4) (object (dbdesc_members msg lsa_headers)) >>= λ dbdesc.
    fit (data_size * 5)
      (object (member (codes "header") header ∷ member (codes "dbdesc") dbdesc ∷ []))
