-- ===== src/Database/HelloBounds.antt =====
-- When the text of a hello packet fits the buffers of ospf6_db_put_hello (ospf6-sibling/ospf6_db.c).
use harry.Base.{
  ℕ, ◌+◌, ◌-◌, ◌*◌, ◌/◌, ◌≤◌, ◌<◌, ◌≡◌, refl, List, [], ◌∷◌, map, none, some, arith, length,
  length-append, le→ltb, inl, inr, Option-cases,
}
use harry.Message.{Rfpbuf, load_u16, load_u32, htons}
use harry.Message.Bytes.{IsBytes}
use harry.Database.Decimal.{Text, codes}
use harry.Database.Printed.{length-print_int_pos}
use harry.Database.Lengths.{
  number_u8, number_u16, number_u32, length-object, length-member, length-number, length-offsets,
  fit-some, header-fits, length-packed, AtMost, packed, spent, array-spent,
}
use harry.Database.Json.{
  member, number, joined, object, array, records, json_router_id, json_router_ids, hello_members,
  json_hello, ospf6_db_json_header,
}

spent-24 : (ps : List ℕ) → spent 24 ps ≡ 26 * length ps
spent-24 [] = omega arith
spent-24 (p ∷ ps) = omega (arith, spent-24 ps)

json_router_id-le : (msg : Rfpbuf) → IsBytes msg → (p : ℕ) → length (json_router_id msg p) ≤ 24
unfolding json_router_id
json_router_id-le msg h p = omega (
  arith,
  length-object 22 [] (number (codes "router_id") (load_u32 msg p) ∷ [])
      (number_u32 (codes "router_id") msg p h, refl),
)

-- What a packet's length says of its router ids.
pub json_router_ids-le :
    (msg : Rfpbuf) → IsBytes msg → htons (load_u16 msg 2) < 68 → length (json_router_ids msg) ≤ 184
unfolding json_router_ids records
json_router_ids-le msg h l =
    let ps = records 4 36 msg in
    omega (
      arith,
      array-spent (json_router_id msg) 24 (json_router_id-le msg h) ps,
      spent-24 ps,
      length-offsets 4 36 ((htons (load_u16 msg 2) - 36) / 4),
    )

hello_bounds :
    (msg : Rfpbuf) (ids : Text)
    → IsBytes msg
    → length ids ≤ 184
    → AtMost (25 ∷ 13 ∷ 14 ∷ 14 ∷ 14 ∷ 21 ∷ 20 ∷ 20 ∷ 21 ∷ 196 ∷ []) (hello_members msg ids)
unfolding hello_members
hello_bounds msg ids h l = (
  number_u32 (codes "interface_id") msg 16 h,
  (
    number_u8 (codes "priority") msg 20 h,
    (
      number_u8 (codes "options_0") msg 21 h,
      (
        number_u8 (codes "options_1") msg 22 h,
        (
          number_u8 (codes "options_2") msg 23 h,
          (
            number_u16 (codes "hello_interval") msg 24 h,
            (
              number_u16 (codes "dead_interval") msg 26 h,
              (
                number_u32 (codes "drouter") msg 28 h,
                (number_u32 (codes "bdrouter") msg 32 h, (router_ids, refl)),
              ),
            ),
          ),
        ),
      ),
    ),
  ),
)
  where
    router_ids : length (member (codes "router_ids") ids) ≤ 196
    router_ids = omega (arith, length-member (codes "router_ids") ids, l)

abbrev hello_text : Rfpbuf → Text
hello_text msg = object (hello_members msg (json_router_ids msg))

length-hello_text :
    (msg : Rfpbuf) → IsBytes msg → htons (load_u16 msg 2) < 68 → length (hello_text msg) ≤ 378
length-hello_text msg h l = omega (
  arith,
  length-object 25 (13 ∷ 14 ∷ 14 ∷ 14 ∷ 21 ∷ 20 ∷ 20 ∷ 21 ∷ 196 ∷ [])
      (hello_members msg (json_router_ids msg))
      (hello_bounds msg (json_router_ids msg) h (json_router_ids-le msg h l)),
)

-- A hello packet of less than 68 bytes, which has at most seven router ids, is written to the
-- buffers of ospf6_db_put_hello without running over the end of one.
pub json_hello-fits :
    (msg : Rfpbuf)
    → IsBytes msg
    → htons (load_u16 msg 2) < 68
    → (t : Text) × ((json_hello msg ≡ some t) × (length t < 600))
unfolding json_hello
json_hello-fits msg h l =
    let short =
      length-packed msg (codes "hello") (hello_text msg) 378 h (omega arith)
        (length-hello_text msg h l) in
    (
      packed msg (codes "hello") (hello_text msg),
      (
        rw
            (
              header-fits msg h,
              fit-some 200 (json_router_ids msg) (omega (arith, json_router_ids-le msg h l)),
              fit-some 400 (hello_text msg) (omega (arith, length-hello_text msg h l)),
              fit-some 600 (packed msg (codes "hello") (hello_text msg)) (omega arith),
            )
            refl,
        omega arith,
      ),
    )

json_router_id-ge : (msg : Rfpbuf) (p : ℕ) → 14 ≤ length (json_router_id msg p)
unfolding json_router_id
json_router_id-ge msg p = omega (
  arith,
  length-append (number (codes "router_id") (load_u32 msg p)) (codes "}"),
  length-number (codes "router_id") (load_u32 msg p),
  length-print_int_pos (load_u32 msg p),
)

joined-ge :
    (msg : Rfpbuf) (ps : List ℕ)
    → 16 * length ps + 1 ≤ length (joined (codes "]") (map (json_router_id msg) ps))
joined-ge msg [] = omega arith
joined-ge msg (p ∷ ps) = omega (
  arith,
  json_router_id-ge msg p,
  length-append (json_router_id msg p) (joined (codes "]") (map (json_router_id msg) ps)),
  joined-ge msg ps,
)

array-ge :
    (msg : Rfpbuf) (ps : List ℕ) → 16 * length ps ≤ length (array (map (json_router_id msg) ps))
array-ge msg [] = omega arith
array-ge msg (p ∷ ps) = omega (
  arith,
  json_router_id-ge msg p,
  length-append (json_router_id msg p) (joined (codes "]") (map (json_router_id msg) ps)),
  joined-ge msg ps,
)

json_router_ids-ge :
    (msg : Rfpbuf) → 88 ≤ htons (load_u16 msg 2) → 200 ≤ length (json_router_ids msg)
unfolding json_router_ids records
json_router_ids-ge msg l = omega (
  arith,
  array-ge msg (records 4 36 msg),
  length-offsets 4 36 ((htons (load_u16 msg 2) - 36) / 4),
)

-- A hello packet of 88 bytes or more, which has at least thirteen router ids, makes
-- ospf6_db_put_hello write over the end of a buffer.
pub json_hello-overflow : (msg : Rfpbuf) → 88 ≤ htons (load_u16 msg 2) → json_hello msg ≡ none
unfolding json_hello
json_hello-overflow msg l = elim (Option-cases (ospf6_db_json_header msg)) [
  | inl e ↦ rw e refl
  | inr (header, e) ↦
      rw (e, le→ltb (length (json_router_ids msg)) 200 (json_router_ids-ge msg l)) refl
]
