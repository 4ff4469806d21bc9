-- ===== src/Database/Sorted.antt =====
-- The keys of a range are sorted by number (lib/db.c), and the last key is the greatest.
use Prim.Native.Nat.{◌≤◌}
use mathlib.Core.List.{Mem, Perm, mem-cons_self, mem-cons_of_mem}
use mathlib.Core.List.Perm
use mathlib.Core.Option.{some-injective}
use harry.Base.{
  ℕ, zero, suc, ◌+◌, ◌<◌, ◌≡◌, refl, ap, ◌∙◌, false, List, [], ◌∷◌, some, arith, map, ltb, All,
  le→ltb, ◌++◌, Bool-cases, inl, inr,
}
use harry.Base.Sorting.{upto, insert_num, sort_nums, sort_nums-Perm, sort_nums-upto, upto-lt}
use harry.Database.Decimal.{Text, print_int}
use harry.Database.Printed.{scan_int-key, strtol-print_int}
use harry.Database.Checkpoint.{current_xid}
use harry.Database.Checkpointed.{scan_int-current, strtol-current}
use harry.Database.Riak.{Riak}
use harry.Database.Keys.{
  sign, is_greater, keys_compare, insert_key, qsort, db_range_keys, ospf6_db_range_keys,
  ospf6_db_last_key, ospf6_db_list_keys, db_list_keys, last_of,
}

keys_compare-print_int :
    (junk : ℕ × ℕ) (a b : ℕ)
    → a < 4294967296
    → b < 4294967296
    → keys_compare junk (print_int a) (print_int b) ≡ sign a b
unfolding keys_compare
keys_compare-print_int junk a b h k = rw (scan_int-key a h, scan_int-key b k) refl

is_greater-sign : (a b : ℕ) → is_greater (sign a b) ≡ ltb b a
is_greater-sign a b = ground arith

abbrev Small : List ℕ → Type 0
Small ns = (n : ℕ) → Mem n ns → n < 4294967296

insert_key-print_int :
    (junk : ℕ × ℕ) (n : ℕ) (ns : List ℕ)
    → n < 4294967296
    → Small ns
    → insert_key junk (print_int n) (map print_int ns) ≡ map print_int (insert_num n ns)
unfolding insert_key
insert_key-print_int junk n [] h k = refl
insert_key-print_int junk n (m ∷ ns) h k =
    let rest = insert_key-print_int junk n ns h (λ c r. k c (mem-cons_of_mem m r)) in
    elim (Bool-cases (ltb m n)) [
      | inl e ↦
          rw (keys_compare-print_int junk n m h (k m mem-cons_self), is_greater-sign n m, rest, e)
            refl
      | inr e ↦
          rw (keys_compare-print_int junk n m h (k m mem-cons_self), is_greater-sign n m, rest, e)
            refl
    ]

qsort-print_int :
    (junk : ℕ × ℕ) (ns : List ℕ)
    → Small ns
    → qsort junk (map print_int ns) ≡ map print_int (sort_nums ns)
unfolding qsort
qsort-print_int junk [] k = refl
qsort-print_int junk (n ∷ ns) k = rw (qsort-print_int junk ns (λ c r. k c (mem-cons_of_mem n r))) (
    insert_key-print_int junk n (sort_nums ns) (k n mem-cons_self)
      (λ c r. k c (mem-cons_of_mem n (Perm.subset (sort_nums-Perm ns) c r))))

pub qsort-upto :
    (junk : ℕ × ℕ) (ns : List ℕ) (a n : ℕ)
    → Perm ns (upto a n)
    → a + n ≤ 4294967296
    → qsort junk (map print_int ns) ≡ map print_int (upto a n)
qsort-upto junk ns a n p h =
    qsort-print_int junk ns (λ c r. omega (arith, upto-lt a n c (Perm.subset p c r), h))
    ∙ ap (map print_int) (sort_nums-upto ns a n p)

last_of-upto : (a n : ℕ) → last_of (map print_int (upto a (suc n))) ≡ some (print_int (a + n))
last_of-upto a zero = ap (λ m. some (print_int m)) (omega arith)
last_of-upto a (suc n) = last_of-upto (a + 1) n ∙ ap (λ m. some (print_int m)) (omega arith)

last_of-cons : (x l : Text) (zs : List Text) → last_of zs ≡ some l → last_of (x ∷ zs) ≡ some l
last_of-cons x l [] h = cc
last_of-cons x l (z ∷ zs) h = h

-- A number that is not above the value that "cur_xid" is compared with stays before it.
keys_compare-current :
    (junk : ℕ × ℕ) (n : ℕ)
    → n < 4294967296
    → n ≤ junk.1
    → is_greater (keys_compare junk (print_int n) current_xid) ≡ false
unfolding keys_compare
keys_compare-current junk n h k =
    rw (scan_int-key n h, scan_int-current, is_greater-sign n junk.1) (le→ltb junk.1 n k)

insert_key-last :
    (junk : ℕ × ℕ) (n : ℕ) (xs : List Text)
    → n < 4294967296
    → n ≤ junk.1
    → last_of xs ≡ some current_xid
    → last_of (insert_key junk (print_int n) xs) ≡ some current_xid
unfolding insert_key
insert_key-last junk n [] h k e = cc
insert_key-last junk n (x ∷ []) h k e =
    let same = some-injective x current_xid e in rw (same, keys_compare-current junk n h k) refl
insert_key-last junk n (x ∷ y ∷ ys) h k e =
    elim (Bool-cases (is_greater (keys_compare junk (print_int n) x))) [
      | inl g ↦ rw g (
          last_of-cons x current_xid (insert_key junk (print_int n) (y ∷ ys))
            (insert_key-last junk n (y ∷ ys) h k e))
      | inr g ↦ rw g e
    ]

qsort-last :
    (junk : ℕ × ℕ) (ns : List ℕ)
    → All (λ n. (n < 4294967296) × (n ≤ junk.1)) ns
    → last_of (qsort junk (map print_int ns ++ current_xid ∷ [])) ≡ some current_xid
unfolding qsort insert_key
qsort-last junk [] h = refl
qsort-last junk (n ∷ ns) h =
    insert_key-last junk n (qsort junk (map print_int ns ++ current_xid ∷ [])) h.0.0 h.0.1
      (qsort-last junk ns h.1)

insert_key-current :
    (junk : ℕ × ℕ) (n : ℕ) (ns : List ℕ)
    → n < 4294967296
    → n ≤ junk.1
    → Small ns
    → insert_key junk (print_int n) (map print_int ns ++ current_xid ∷ [])
      ≡ map print_int (insert_num n ns) ++ current_xid ∷ []
unfolding insert_key
insert_key-current junk n [] h l k = rw (keys_compare-current junk n h l) refl
insert_key-current junk n (m ∷ ns) h l k =
    let rest = insert_key-current junk n ns h l (λ c r. k c (mem-cons_of_mem m r)) in
    elim (Bool-cases (ltb m n)) [
      | inl e ↦
          rw (keys_compare-print_int junk n m h (k m mem-cons_self), is_greater-sign n m, rest, e)
            refl
      | inr e ↦
          rw (keys_compare-print_int junk n m h (k m mem-cons_self), is_greater-sign n m, rest, e)
            refl
    ]

qsort-nums_current :
    (junk : ℕ × ℕ) (ns : List ℕ)
    → Small ns
    → ((n : ℕ) → Mem n ns → n ≤ junk.1)
    → qsort junk (map print_int ns ++ current_xid ∷ [])
      ≡ map print_int (sort_nums ns) ++ current_xid ∷ []
unfolding qsort insert_key
qsort-nums_current junk [] k l = refl
qsort-nums_current junk (n ∷ ns) k l =
    rw
      (qsort-nums_current junk ns (λ c r. k c (mem-cons_of_mem n r))
        (λ c r. l c (mem-cons_of_mem n r)))
      (insert_key-current junk n (sort_nums ns) (k n mem-cons_self) (l n mem-cons_self)
        (λ c r. k c (mem-cons_of_mem n (Perm.subset (sort_nums-Perm ns) c r))))

pub qsort-current :
    (junk : ℕ × ℕ) (ns : List ℕ) (a n : ℕ)
    → Perm ns (upto a n)
    → a + n ≤ 4294967296
    → a + n ≤ junk.1 + 1
    → qsort junk (map print_int ns ++ current_xid ∷ [])
      ≡ map print_int (upto a n) ++ current_xid ∷ []
qsort-current junk ns a n p h l =
    qsort-nums_current junk ns (λ c r. omega (arith, upto-lt a n c (Perm.subset p c r), h))
      (λ c r. omega (arith, upto-lt a n c (Perm.subset p c r), l))
    ∙ ap (λ ms. map print_int ms ++ current_xid ∷ []) (sort_nums-upto ns a n p)

module _ {S : Type 0} (db : Riak S) (junk : ℕ × ℕ) where
  -- If the range query of the data base returns the keys of the transaction ids from `a` on, `n` of
  -- them and none beyond 32 bits, in whatever order, then ospf6_db_range_keys returns them in
  -- order.
  pub ospf6_db_range_keys-upto :
      (s : S) (bucket first last : ℕ) (ns : List ℕ) (a n : ℕ)
      → db.riack_2i_query_range s (print_int bucket) (print_int first) (print_int last)
        ≡ some (map print_int ns)
      → Perm ns (upto a n)
      → a + n ≤ 4294967296
      → ospf6_db_range_keys db junk s bucket first last ≡ map print_int (upto a n)
  unfolding ospf6_db_range_keys db_range_keys
  ospf6_db_range_keys-upto s bucket first last ns a n e p h = rw e (qsort-upto junk ns a n p h)

  -- If the data base lists just the keys of the transaction ids from `a` on, one at least and none
  -- beyond 32 bits, in whatever order, then ospf6_db_last_key is the greatest of them.
  pub ospf6_db_last_key-greatest :
      (s : S) (bucket : ℕ) (ns : List ℕ) (a n : ℕ)
      → db.riack_list_keys s (print_int bucket) ≡ some (map print_int ns)
      → Perm ns (upto a (suc n))
      → a + suc n ≤ 4294967296
      → ospf6_db_last_key db junk s bucket ≡ some (a + n)
  unfolding ospf6_db_last_key ospf6_db_list_keys db_list_keys
  ospf6_db_last_key-greatest s bucket ns a n e p h =
      rw
        (
          e,
          qsort-upto junk ns a (suc n) p h,
          last_of-upto a n,
          strtol-print_int (a + n) (omega arith),
        )
        refl

  -- Where the data base also lists "cur_xid", after keys of 32 bits, and the value that is compared
  -- for it is no less than any of them, ospf6_db_last_key is 0.
  pub ospf6_db_last_key-current :
      (s : S) (bucket : ℕ) (ns : List ℕ)
      → db.riack_list_keys s (print_int bucket) ≡ some (map print_int ns ++ current_xid ∷ [])
      → All (λ n. (n < 4294967296) × (n ≤ junk.1)) ns
      → ospf6_db_last_key db junk s bucket ≡ some 0
  unfolding ospf6_db_last_key ospf6_db_list_keys db_list_keys
  ospf6_db_last_key-current s bucket ns e h = rw (e, qsort-last junk ns h) (ap some strtol-current)
