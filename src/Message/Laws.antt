-- ===== src/Message/Laws.antt =====
-- What the comparison and the header of a message mean.
use harry.Base.{ℕ, ◌<◌, ◌≡◌, refl, true, some, List, [], ◌∷◌, ◌↔◌, arith, length, ==_iff}
use harry.Message.{
  Rfpbuf, hello, RfpType, rfp_type_of, type_code, htonl, routeflow_alloc_xid, rh_type, rh_xid,
  rh_length, rfpbuf_equal, memcmp_eq, htons,
}

memcmp_eq_refl : (a : List ℕ) → memcmp_eq a a ≡ true
unfolding memcmp_eq
memcmp_eq_refl [] = refl
memcmp_eq_refl (x ∷ xs) = rw ((==_iff x x).1 refl) (memcmp_eq_refl xs)

eq_of_memcmp_eq : (a b : List ℕ) → length a ≡ length b → memcmp_eq a b ≡ true → a ≡ b
unfolding memcmp_eq
eq_of_memcmp_eq [] [] l h = refl
eq_of_memcmp_eq [] (y ∷ ys) l h = absurd (omega arith)
eq_of_memcmp_eq (x ∷ xs) [] l h = absurd (omega arith)
eq_of_memcmp_eq (x ∷ xs) (y ∷ ys) l h = ground (arith, eq_of_memcmp_eq xs ys)

pub rfpbuf_equal_refl : (a : Rfpbuf) → rfpbuf_equal a a ≡ true
unfolding rfpbuf_equal
rfpbuf_equal_refl a = rw ((==_iff (length a) (length a)).1 refl) (memcmp_eq_refl a)

pub eq_of_rfpbuf_equal : (a b : Rfpbuf) → rfpbuf_equal a b ≡ true → a ≡ b
unfolding rfpbuf_equal
eq_of_rfpbuf_equal a b h = ground (arith, eq_of_memcmp_eq a b)

-- Two buffers compare as equal exactly when they hold the same bytes.
pub rfpbuf_equal_iff : (a b : Rfpbuf) → (rfpbuf_equal a b ≡ true) ↔ (a ≡ b)
rfpbuf_equal_iff a b = (eq_of_rfpbuf_equal a b, λ e. rw e (rfpbuf_equal_refl b))

-- A byte swap undoes itself.
pub htonl-htonl : (w : ℕ) → w < 4294967296 → htonl (htonl w) ≡ w
unfolding htonl
htonl-htonl w h = omega arith

rfp_type_of-type_code : (t : RfpType) → rfp_type_of (type_code t) ≡ some t
unfolding rfp_type_of type_code
rfp_type_of-type_code hello = refl
rfp_type_of-type_code _ = refl

-- For a transaction id of 32 bits and a length of 16, a message whose header is stored with htonl
-- gives its type, transaction id and length back.
pub header_roundtrip :
    (t : RfpType) (v xid len : ℕ)
    → xid < 4294967296
    → len < 65536
    → let msg = routeflow_alloc_xid t v (htonl xid) len in
      (rh_type msg ≡ some t) × (rh_xid msg ≡ xid) × (rh_length msg ≡ len)
unfolding routeflow_alloc_xid rh_type rh_xid rh_length htonl htons
header_roundtrip t v xid len hx hl = (rfp_type_of-type_code t, omega arith, omega arith)
