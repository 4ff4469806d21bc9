-- ===== src/Database/DbdescBounds.antt =====
-- When the text of a packet fits the buffers of ospf6_db_put_dbdesc (ospf6-sibling/ospf6_db.c).
use harry.Base.{ℕ, ◌+◌, ◌-◌, ◌*◌, ◌/◌, ◌≤◌, ◌<◌, ◌≡◌, refl, List, [], ◌∷◌, some, arith, length}
use harry.Message.{Rfpbuf, load_u16, htons}
use harry.Message.Bytes.{IsBytes}
use harry.Database.Decimal.{Text, codes}
use harry.Database.Lengths.{
  number_u8, number_u16, number_u32, length-object, length-member, length-offsets, fit-some,
  header-fits, length-packed, AtMost, packed, spent, array-spent,
}
use harry.Database.Json.{
  member, object, records, json_lsa_header, lsa_members, json_lsa_headers, dbdesc_members,
  json_dbdesc,
}

spent-120 : (ps : List ℕ) → spent 120 ps ≡ 122 * length ps
spent-120 [] = omega arith
spent-120 (p ∷ ps) = omega (arith, spent-120 ps)

json_lsa_header-le : (msg : Rfpbuf) → IsBytes msg → (p : ℕ) → length (json_lsa_header msg p) ≤ 120
unfolding json_lsa_header
json_lsa_header-le msg h p =
    omega (arith, length-object 10 (11 ∷ 15 ∷ 23 ∷ 19 ∷ 15 ∷ 13 ∷ []) (lsa_members msg p) bounds)
  where
    bounds : AtMost (10 ∷ 11 ∷ 15 ∷ 23 ∷ 19 ∷ 15 ∷ 13 ∷ []) (lsa_members msg p)
    bounds = (
      number_u16 (codes "age") msg p h,
      (
        number_u16 (codes "type") msg (p + 2) h,
        (
          number_u32 (codes "id") msg (p + 4) h,
          (
            number_u32 (codes "adv_router") msg (p + 8) h,
            (
              number_u32 (codes "seqnum") msg (p + 12) h,
              (
                number_u16 (codes "checksum") msg (p + 16) h,
                (number_u16 (codes "length") msg (p + 18) h, refl),
              ),
            ),
          ),
        ),
      ),
    )

json_lsa_headers-le :
    (msg : Rfpbuf)
    → IsBytes msg
    → htons (load_u16 msg 2) < 148
    → length (json_lsa_headers msg) ≤ 612
unfolding json_lsa_headers records
json_lsa_headers-le msg h l =
    let ps = records 20 28 msg in
    omega (
      arith,
      array-spent (json_lsa_header msg) 120 (json_lsa_header-le msg h) ps,
      spent-120 ps,
      length-offsets 20 28 ((htons (load_u16 msg 2) - 28) / 20),
    )

dbdesc_bounds :
    (msg : Rfpbuf) (headers : Text)
    → IsBytes msg
    → length headers ≤ 612
    → AtMost (14 ∷ 14 ∷ 14 ∷ 14 ∷ 12 ∷ 14 ∷ 9 ∷ 19 ∷ 625 ∷ []) (dbdesc_members msg headers)
unfolding dbdesc_members
dbdesc_bounds msg headers h l = (
  number_u8 (codes "reserved1") msg 16 h,
  (
    number_u8 (codes "options_0") msg 17 h,
    (
      number_u8 (codes "options_1") msg 18 h,
      (
        number_u8 (codes "options_2") msg 19 h,
        (
          number_u16 (codes "ifmtu") msg 20 h,
          (
            number_u8 (codes "reserved2") msg 22 h,
            (
              number_u8 (codes "bits") msg 23 h,
              (number_u32 (codes "seqnum") msg 24 h, (lsa_headers, refl)),
            ),
          ),
        ),
      ),
    ),
  ),
)
  where
    lsa_headers : length (member (codes "lsa_headers") headers) ≤ 625
    lsa_headers = omega (arith, length-member (codes "lsa_headers") headers, l)

abbrev dbdesc_text : Rfpbuf → Text
dbdesc_text msg = object (dbdesc_members msg (json_lsa_headers msg))

length-dbdesc_text :
    (msg : Rfpbuf) → IsBytes msg → htons (load_u16 msg 2) < 148 → length (dbdesc_text msg) ≤ 753
length-dbdesc_text msg h l = omega (
  arith,
  length-object 14 (14 ∷ 14 ∷ 14 ∷ 12 ∷ 14 ∷ 9 ∷ 19 ∷ 625 ∷ [])
      (dbdesc_members msg (json_lsa_headers msg))
      (dbdesc_bounds msg (json_lsa_headers msg) h (json_lsa_headers-le msg h l)),
)

-- A data base description of less than 148 bytes, which has at most five LSA headers, is written to
-- the buffers of ospf6_db_put_dbdesc without running over the end of one.
pub json_dbdesc-fits :
    (msg : Rfpbuf)
    → IsBytes msg
    → htons (load_u16 msg 2) < 148
    → (t : Text) × ((json_dbdesc msg ≡ some t) × (length t < 1000))
unfolding json_dbdesc
json_dbdesc-fits msg h l =
    let short =
      length-packed msg (codes "dbdesc") (dbdesc_text msg) 753 h (omega arith)
        (length-dbdesc_text msg h l) in
    (
      packed msg (codes "dbdesc") (dbdesc_text msg),
      (
        rw
            (
              header-fits msg h,
              fit-some 800 (json_lsa_headers msg) (omega (arith, json_lsa_headers-le msg h l)),
              fit-some 800 (dbdesc_text msg) (omega (arith, length-dbdesc_text msg h l)),
              fit-some 1000 (packed msg (codes "dbdesc") (dbdesc_text msg)) (omega arith),
            )
            refl,
        omega arith,
      ),
    )
