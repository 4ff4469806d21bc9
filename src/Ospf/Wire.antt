-- ===== src/Ospf/Wire.antt =====
-- The bytes of the packets that a router sends (ospf6_fill_header and the ends of the send functions
-- of ospf6-sibling/ospf6_message.c). A packet is the bytes from its OSPF6 header on.
use harry.Base.{ℕ, ◌+◌, ◌%◌, Bool, ◌&&◌, List, [], ◌∷◌, ◌++◌, ltb, length, flag, ◌*◌}
use harry.Message.{Rfpbuf}
use harry.Ospf.Lsa.{Lsa}
use harry.Ospf.State.{DbdescBits}
use harry.Ospf.Checksum.{be16, be32}

-- What the packets of an interface are filled with.
pub record Link : Type 0 where
  pub router_id : ℕ
  pub area_id : ℕ
  pub options : List ℕ
  pub transdelay : ℕ

-- An OSPF6 header of a type, for a body.
unfoldable pub with_header : Link → ℕ → List ℕ → Rfpbuf
with_header link type body =
    (3 ∷ type ∷ be16 (16 + length body) ++ be32 link.router_id ++ be32 link.area_id)
    ++ (0 ∷ 0 ∷ 0 ∷ 0 ∷ [])
    ++ body

-- The header of an LSA, and an LSA.
unfoldable pub wire_header : Lsa → List ℕ
wire_header lsa =
    be16 lsa.age
    ++ be16 lsa.lsa_type
    ++ be32 lsa.id
    ++ be32 lsa.adv_router
    ++ be32 lsa.seqnum
    ++ be16 lsa.checksum
    ++ be16 lsa.length

unfoldable pub wire : Lsa → List ℕ
unfolding wire_header
wire lsa = wire_header lsa ++ lsa.body

unfoldable pub wire_entry : Lsa → List ℕ
wire_entry lsa = 0 ∷ 0 ∷ be16 lsa.lsa_type ++ be32 lsa.id ++ be32 lsa.adv_router

unfoldable pub bits_byte : DbdescBits → ℕ
bits_byte b = flag b.msbit + 2 * flag b.mbit + 4 * flag b.ibit

-- struct ospf6_dbdesc.
unfoldable pub wire_dbdesc : Link → ℕ → DbdescBits → ℕ → List ℕ
unfolding bits_byte
wire_dbdesc link ifmtu bits seqnum =
    (0 ∷ link.options) ++ be16 ifmtu ++ (0 ∷ bits_byte bits ∷ []) ++ be32 seqnum

-- The buffer may move when it grows, and then `oh` of an MTU check is where it was before. `moved`
-- gives, for the length of the packet, how far the buffer has moved since, modulo 2 ^ 64.
abbrev pub Moved : Type 0
Moved = ℕ → ℕ

abbrev pub unmoved : Moved
unmoved n = 0

-- The MTU checks, which are on `unsigned long` and on `long`.
unfoldable pub exceeds : Moved → ℕ → ℕ → ℕ → Bool
exceeds moved mtu len more = ltb mtu ((len + moved len + more) % 18446744073709551616)

unfoldable pub exceeds_signed : Moved → ℕ → ℕ → ℕ → Bool
exceeds_signed moved mtu len more =
    ltb mtu ((len + moved len + more) % 18446744073709551616)
    && ltb ((len + moved len + more) % 18446744073709551616) 9223372036854775808
