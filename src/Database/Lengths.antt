-- ===== src/Database/Lengths.antt =====
-- How long the objects and arrays of the JSON texts of ospf6-sibling/ospf6_db.c are.
use harry.Base.{
  ℕ, zero, suc, ◌+◌, ◌≤◌, ◌<◌, ◌≡◌, refl, List, [], ◌∷◌, ◌++◌, map, some, arith, length,
  length-append, get_or, lt→ltb, ap, ◌∙◌,
}
use harry.Message.{Rfpbuf, load_u16, load_u32}
use harry.Message.Bytes.{IsBytes, get_or-IsBytes, load_u16-IsBytes, load_u32-IsBytes}
use harry.Database.Decimal.{Text, codes, print_int}
use harry.Database.Printed.{length-print_int, length-print_int_small}
use harry.Database.Json.{
  member, number, joined, separated, object, array, fit, header_members, ospf6_db_json_header,
  offsets,
}

colon_length : (value : Text) → length (codes ": " ++ value) ≡ 2 + length value
colon_length value = omega arith

pub length-member :
    (name value : Text) → length (member name value) ≡ length name + (2 + length value)
length-member name value =
    length-append name (codes ": " ++ value) ∙ ap (λ m. length name + m) (colon_length value)

pub length-number :
    (name : Text) (n : ℕ) → length (number name n) ≡ length name + (2 + length (print_int n))
length-number name n = length-member name (print_int n)

-- A member with a number of one, two or four bytes.
pub number_u8 :
    (name : Text) (msg : Rfpbuf) (p : ℕ)
    → IsBytes msg
    → length (number name (get_or msg p 0)) ≤ length name + 5
number_u8 name msg p h = omega (
  arith,
  length-number name (get_or msg p 0),
  length-print_int_small 2 (get_or msg p 0) (omega (arith, get_or-IsBytes msg p h))
      (omega (arith, get_or-IsBytes msg p h)),
)

pub number_u16 :
    (name : Text) (msg : Rfpbuf) (p : ℕ)
    → IsBytes msg
    → length (number name (load_u16 msg p)) ≤ length name + 7
number_u16 name msg p h = omega (
  arith,
  length-number name (load_u16 msg p),
  length-print_int_small 4 (load_u16 msg p) (omega (arith, load_u16-IsBytes msg p h))
      (omega (arith, load_u16-IsBytes msg p h)),
)

pub number_u32 :
    (name : Text) (msg : Rfpbuf) (p : ℕ)
    → IsBytes msg
    → length (number name (load_u32 msg p)) ≤ length name + 13
number_u32 name msg p h = omega (
  arith,
  length-number name (load_u32 msg p),
  length-print_int (load_u32 msg p) (load_u32-IsBytes msg p h),
)

-- Texts that are at most as long as a list of bounds says.
abbrev pub AtMost : List ℕ → List Text → Type 0
AtMost [] ts = ts ≡ []
AtMost (b ∷ bs) [] = Unit
AtMost (b ∷ bs) (t ∷ ts) = (length t ≤ b) × AtMost bs ts

abbrev total : List ℕ → ℕ
total [] = 0
total (b ∷ bs) = b + 2 + total bs

length-joined :
    (bs : List ℕ) (ts : List Text) (last : Text)
    → AtMost bs ts
    → length (joined last ts) ≤ total bs + length last
length-joined [] ts last h = rw h (omega arith)
length-joined (b ∷ bs) [] last h = omega arith
length-joined (b ∷ bs) (t ∷ ts) last h = omega (
  arith,
  h.0,
  length-append (codes ", ") (t ++ joined last ts),
  length-append t (joined last ts),
  length-joined bs ts last h.1,
)

length-separated :
    (b : ℕ) (bs : List ℕ) (ts : List Text) (last : Text)
    → AtMost (b ∷ bs) ts
    → length (separated ts last) ≤ b + total bs + length last
length-separated b bs [] last h = omega arith
length-separated b bs (t ∷ ts) last h =
    omega (arith, h.0, length-append t (joined last ts), length-joined bs ts last h.1)

pub length-object :
    (b : ℕ) (bs : List ℕ) (ts : List Text)
    → AtMost (b ∷ bs) ts
    → length (object ts) ≤ b + total bs + 2
length-object b bs ts h = omega (arith, length-separated b bs ts (codes "}") h)

header_bounds :
    (msg : Rfpbuf)
    → IsBytes msg
    → AtMost (12 ∷ 9 ∷ 13 ∷ 22 ∷ 20 ∷ 15 ∷ 16 ∷ 13 ∷ []) (header_members msg)
unfolding header_members
header_bounds msg h = (
  number_u8 (codes "version") msg 0 h,
  (
    number_u8 (codes "type") msg 1 h,
    (
      number_u16 (codes "length") msg 2 h,
      (
        number_u32 (codes "router_id") msg 4 h,
        (
          number_u32 (codes "area_id") msg 8 h,
          (
            number_u16 (codes "checksum") msg 12 h,
            (
              number_u8 (codes "instance_id") msg 14 h,
              (number_u8 (codes "reserved") msg 15 h, refl),
            ),
          ),
        ),
      ),
    ),
  ),
)

pub length-header : (msg : Rfpbuf) → IsBytes msg → length (object (header_members msg)) ≤ 136
length-header msg h =
    omega (arith, length-object 12 (9 ∷ 13 ∷ 22 ∷ 20 ∷ 15 ∷ 16 ∷ 13 ∷ []) _ (header_bounds msg h))

-- An array of texts that are at most `k` long.
abbrev pub spent : ℕ → List ℕ → ℕ
spent k [] = 0
spent k (p ∷ ps) = k + 2 + spent k ps

module _ (f : ℕ → Text) (k : ℕ) (h : (p : ℕ) → length (f p) ≤ k) where
  joined-spent : (ps : List ℕ) → length (joined (codes "]") (map f ps)) ≤ spent k ps + 1
  joined-spent [] = omega arith
  joined-spent (p ∷ ps) = omega (
    arith,
    h p,
    length-append (codes ", ") (f p ++ joined (codes "]") (map f ps)),
    length-append (f p) (joined (codes "]") (map f ps)),
    joined-spent ps,
  )

  pub array-spent : (ps : List ℕ) → length (array (map f ps)) ≤ spent k ps + 2
  array-spent [] = omega arith
  array-spent (p ∷ ps) =
      omega (arith, h p, length-append (f p) (joined (codes "]") (map f ps)), joined-spent ps)

pub length-offsets : (size p n : ℕ) → length (offsets size p n) ≡ n
unfolding offsets
length-offsets size p zero = refl
length-offsets size p (suc n) = ap suc (length-offsets size (p + size) n)

pub fit-some : (size : ℕ) (t : Text) → length t < size → fit size t ≡ some t
fit-some size t h = rw (lt→ltb (length t) size h) refl

pub header-fits :
    (msg : Rfpbuf) → IsBytes msg → ospf6_db_json_header msg ≡ some (object (header_members msg))
unfolding ospf6_db_json_header
header-fits msg h = fit-some 200 _ (omega (arith, length-header msg h))

abbrev pub packed : Rfpbuf → Text → Text → Text
packed msg name body =
    object (member (codes "header") (object (header_members msg)) ∷ member name body ∷ [])

pub length-packed :
    (msg : Rfpbuf) (name body : Text) (n : ℕ)
    → IsBytes msg
    → length name ≤ 6
    → length body ≤ n
    → length (packed msg name body) ≤ 158 + n
length-packed msg name body n h k l = omega (
  arith,
  length-object 144 ((8 + n) ∷ [])
      (member (codes "header") (object (header_members msg)) ∷ member name body ∷ [])
      (
        omega (
          arith,
          length-member (codes "header") (object (header_members msg)),
          length-header msg h,
        ),
        (omega (arith, length-member name body), refl),
      ),
)
