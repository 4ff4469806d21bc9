-- ===== src/Ospf/Decoded.antt =====
-- An LSA that is read back from the bytes of a packet (ospf6_lsa_create of ospf6-sibling/ospf6_lsa.c).
use harry.Base.{
  ℕ, zero, suc, ◌+◌, ◌-◌, ◌*◌, ◌/◌, ◌%◌, ◌<◌, ◌≡◌, refl, ap, ap₂, ◌∙◌, List, [], ◌∷◌, ◌++◌, arith,
  length, get_or,
}
use harry.Message.{load_u16, load_u32, htons, htonl}
use harry.Ospf.Lsa.{Lsa}
use harry.Ospf.Packet.{bytes_at, birth_at, ospf6_lsa_create, ospf6_lsa_create_headeronly, lsa_size}
use harry.Ospf.Wire.{wire, wire_header}

get_or-shift :
    (pre rest : List ℕ) (p i : ℕ) → p ≡ length pre + i → get_or (pre ++ rest) p 0 ≡ get_or rest i 0
get_or-shift [] rest p i e = ap (λ n. get_or rest n 0) (omega (arith, e))
get_or-shift (x ∷ pre) rest zero i e = absurd (omega (arith, e))
get_or-shift (x ∷ pre) rest (suc p) i e = get_or-shift pre rest p i (omega (arith, e))

pub load_u16-shift :
    (pre rest : List ℕ) (p i : ℕ) → p ≡ length pre + i → load_u16 (pre ++ rest) p ≡ load_u16 rest i
load_u16-shift pre rest p i e =
    omega
      (arith, get_or-shift pre rest p i e, get_or-shift pre rest (p + 1) (i + 1) (omega (arith, e)))

pub load_u32-shift :
    (pre rest : List ℕ) (p i : ℕ) → p ≡ length pre + i → load_u32 (pre ++ rest) p ≡ load_u32 rest i
load_u32-shift pre rest p i e = omega (
  arith,
  get_or-shift pre rest p i e,
  get_or-shift pre rest (p + 1) (i + 1) (omega (arith, e)),
  get_or-shift pre rest (p + 2) (i + 2) (omega (arith, e)),
  get_or-shift pre rest (p + 3) (i + 3) (omega (arith, e)),
)

bytes_at-shift :
    (pre rest : List ℕ) (p i n : ℕ)
    → p ≡ length pre + i
    → bytes_at (pre ++ rest) p n ≡ bytes_at rest i n
unfolding bytes_at
bytes_at-shift pre rest p i zero e = refl
bytes_at-shift pre rest p i (suc n) e =
    ap₂ (λ (x : ℕ) (xs : List ℕ). x ∷ xs) (get_or-shift pre rest p i e)
      (bytes_at-shift pre rest (p + 1) (i + 1) n (omega (arith, e)))

bytes_at-all : (xs post : List ℕ) → bytes_at (xs ++ post) 0 (length xs) ≡ xs
unfolding bytes_at
bytes_at-all [] post = refl
bytes_at-all (x ∷ xs) post =
    ap (◌∷◌ x) (bytes_at-shift (x ∷ []) (xs ++ post) 1 0 (length xs) refl ∙ bytes_at-all xs post)

pub htons-be16 : (n : ℕ) → n < 65536 → htons (n / 256 % 256 + 256 * (n % 256)) ≡ n
unfolding htons
htons-be16 n h = omega (arith, h)

pub htonl-be32 :
    (n : ℕ)
    → n < 4294967296
    → htonl (
        n / 65536 / 256 % 256
        + 256 * (n / 65536 % 256)
        + 65536 * (n / 256 % 256)
        + 16777216 * (n % 256))
      ≡ n
unfolding htonl
htonl-be32 n h = omega (arith, h)

-- An LSA whose fields fit those of the header, with a body as long as its length says.
pub record IsWire (x : Lsa) : Type 0 where
  pub small_age : x.age < 65536
  pub small_type : x.lsa_type < 65536
  pub small_id : x.id < 4294967296
  pub small_router : x.adv_router < 4294967296
  pub small_seqnum : x.seqnum < 4294967296
  pub small_checksum : x.checksum < 65536
  pub small_length : x.length < 65536
  pub sized : x.length ≡ 20 + length x.body

-- An LSA as ospf6_lsa_create makes it at a time, and the bytes of LSAs one after another.
abbrev pub received : ℕ → Lsa → Lsa
received now x = record x { birth = birth_at now x.age; installed = 0 }

abbrev pub wires : List Lsa → List ℕ
wires [] = []
wires (x ∷ xs) = wire x ++ wires xs

pub length-wire : (x : Lsa) → IsWire x → length (wire x) ≡ x.length
unfolding wire wire_header
length-wire x w = omega (arith, w.sized)

pub lsa_size-wire :
    (pre post : List ℕ) (x : Lsa) (p : ℕ)
    → IsWire x
    → p ≡ length pre
    → lsa_size (pre ++ (wire x ++ post)) p ≡ x.length
unfolding wire wire_header
lsa_size-wire pre post x p w e =
    ap htons (load_u16-shift pre (wire x ++ post) (p + 18) 18 (omega (arith, e)))
    ∙ htons-be16 x.length w.small_length

pub ospf6_lsa_create-wire :
    (now : ℕ) (pre post : List ℕ) (x : Lsa) (p : ℕ)
    → IsWire x
    → p ≡ length pre
    → ospf6_lsa_create now (pre ++ (wire x ++ post)) p ≡ received now x
unfolding ospf6_lsa_create ospf6_lsa_create_headeronly wire wire_header
ospf6_lsa_create-wire now pre post x p w e =
    let rest = wire x ++ post in
    let half = λ (i : ℕ). load_u16-shift pre rest (p + i) i (omega (arith, e)) in
    let full = λ (i : ℕ). load_u32-shift pre rest (p + i) i (omega (arith, e)) in
    let age : htons (load_u16 (pre ++ rest) p) ≡ x.age =
      ap htons (load_u16-shift pre rest p 0 (omega (arith, e))) ∙ htons-be16 x.age w.small_age in
    let type : htons (load_u16 (pre ++ rest) (p + 2)) ≡ x.lsa_type =
      ap htons (half 2) ∙ htons-be16 x.lsa_type w.small_type in
    let id : htonl (load_u32 (pre ++ rest) (p + 4)) ≡ x.id =
      ap htonl (full 4) ∙ htonl-be32 x.id w.small_id in
    let router : htonl (load_u32 (pre ++ rest) (p + 8)) ≡ x.adv_router =
      ap htonl (full 8) ∙ htonl-be32 x.adv_router w.small_router in
    let seqnum : htonl (load_u32 (pre ++ rest) (p + 12)) ≡ x.seqnum =
      ap htonl (full 12) ∙ htonl-be32 x.seqnum w.small_seqnum in
    let checksum : htons (load_u16 (pre ++ rest) (p + 16)) ≡ x.checksum =
      ap htons (half 16) ∙ htons-be16 x.checksum w.small_checksum in
    let size = lsa_size-wire pre post x p w e in
    let whole : lsa_size (pre ++ rest) p - 20 ≡ length x.body = omega (arith, size, w.sized) in
    let body : bytes_at (pre ++ rest) (p + 20) (lsa_size (pre ++ rest) p - 20) ≡ x.body =
      ap (bytes_at (pre ++ rest) (p + 20)) whole
      ∙ bytes_at-shift pre rest (p + 20) 20 (length x.body) (omega (arith, e))
      ∙ bytes_at-shift (wire_header x) (x.body ++ post) 20 0 (length x.body) refl
      ∙ bytes_at-all x.body post in
    λ i. record {
      age = age i;
      lsa_type = type i;
      id = id i;
      adv_router = router i;
      seqnum = seqnum i;
      checksum = checksum i;
      length = size i;
      body = body i;
      birth = birth_at now (age i);
      installed = 0;
    }
