-- ===== src/Ospf/Checksum.antt =====
-- The checksum of an LSA (ospf6_lsa_checksum of ospf6-sibling/ospf6_lsa.c).
use harry.Base.{
  ℕ, zero, suc, ◌+◌, ◌-◌, ◌*◌, ◌/◌, ◌%◌, List, [], ◌∷◌, ◌++◌, leb, ◌==◌, if◌then◌else◌, take,
}
use harry.Ospf.Lsa.{Lsa}

-- Numbers of two and four bytes in network order.
abbrev pub be16 : ℕ → List ℕ
be16 n = n / 256 % 256 ∷ n % 256 ∷ []

abbrev pub be32 : ℕ → List ℕ
be32 n = be16 (n / 65536) ++ be16 n

-- The LSA from its type on, with the checksum in its place.
unfoldable pub lsa_bytes : Lsa → ℕ → List ℕ
lsa_bytes lsa checksum =
    (be16 lsa.lsa_type ++ be32 lsa.id ++ be32 lsa.adv_router ++ be32 lsa.seqnum)
    ++ be16 checksum
    ++ be16 lsa.length
    ++ lsa.body

-- The sums over the bytes, which are reduced after every 4102 and at the end; the first number is
-- what is left of these.
unfoldable pub fletcher : ℕ → ℕ → ℕ → List ℕ → ℕ × ℕ
fletcher k c0 c1 [] = (c0 % 255, c1 % 255)
fletcher zero c0 c1 (b ∷ bs) = fletcher 4101 (c0 % 255 + b) (c1 % 255 + (c0 % 255 + b)) bs
fletcher (suc k) c0 c1 (b ∷ bs) = fletcher k (c0 + b) (c1 + (c0 + b)) bs

-- ((length - 15) * c0 - c1) % 255 and then 255 more if that is not positive; the quotients of C are
-- rounded towards 0.
unfoldable pub checksum_x : ℕ → ℕ → ℕ → ℕ
checksum_x length c0 c1 =
    let up = (length - 15) * c0 in
    let down = (15 - length) * c0 + c1 in
    if leb down up
    then (if (up - down) % 255 == 0 then 255 else (up - down) % 255)
    else 255 - (down - up) % 255

unfoldable pub checksum_y : ℕ → ℕ → ℕ
checksum_y c0 x = if leb (510 - c0 - x) 255 then 510 - c0 - x else 255 - c0 - x

-- The checksum in the order of the host. The length is an `unsigned short`.
unfoldable pub ospf6_lsa_checksum : Lsa → ℕ
unfolding lsa_bytes fletcher checksum_x checksum_y
ospf6_lsa_checksum lsa =
    let length = (lsa.length + 65534) % 65536 in
    let c = fletcher 4102 0 0 (take length (lsa_bytes lsa 0)) in
    let x = checksum_x length c.0 c.1 in 256 * x + checksum_y c.0 x
