-- ===== src/Database/Allocation.antt =====
-- The numbers that db_get_unique_ingress_id and db_set_egress_xid keep (lib/db.c).
use harry.Base.{
  ℕ, zero, suc, ◌+◌, ◌<◌, ◌≡◌, refl, true, List, [], ◌∷◌, Option, some, arith, length, u32, lt→ltb,
  ◌>>=◌,
}
use harry.Database.Decimal.{Text, print_int}
use harry.Database.Printed.{strtol-print_int, length-print_int}
use harry.Database.Riak.{ConsistentRiak}
use harry.Database.Ids.{
  bucket_type, ids_bucket, ingress_key, egress_key, stored_xid, read_failed, count_on, put_xid,
  db_get_and_set, db_get_unique_ingress_id, db_get_egress_xid, replace_egress, db_set_egress_xid,
}

module _ {S : Type 0} (db : ConsistentRiak S) where
  -- The object of a key has one content, the text of a number.
  abbrev pub Stored : S → Text → ℕ → Type 0
  Stored s key n =
      (n < 4294967296) × (db.riack_get_ext s bucket_type ids_bucket key ≡ some (print_int n ∷ []))

  stored_xid-print_int :
      (n : ℕ) → n < 4294967296 → stored_xid db (some (print_int n ∷ [])) ≡ some (some n)
  unfolding stored_xid
  stored_xid-print_int n h =
      rw
        (
          lt→ltb (length (print_int n)) 30 (omega (arith, length-print_int n h)),
          strtol-print_int n h,
        )
        refl

  -- Successive calls of db_get_unique_ingress_id, and their results.
  abbrev pub allocate : ℕ → S → Option (S × List ℕ)
  allocate zero s = some (s, [])
  allocate (suc n) s = db_get_unique_ingress_id db s >>= λ one.
      allocate n one.0 >>= λ more. some (more.0, one.1 ∷ more.1)

  -- The numbers after one, with the wrap-around of 32 bits.
  abbrev pub successors : ℕ → ℕ → List ℕ
  successors zero x = []
  successors (suc n) x = u32 (x + 1) ∷ successors n (u32 (x + 1))

  module _ (up : (s : S) (t b k d : Text) → (db.riack_put_ext s t b k d).1 ≡ true) where
    put_xid-Stored :
        (s : S) (key : Text) (xid result : ℕ)
        → xid < 4294967296
        → ((put_xid db s key xid result).1 ≡ result)
          × Stored (put_xid db s key xid result).0 key xid
    unfolding put_xid
    put_xid-Stored s key xid result h = (
      rw (up s bucket_type ids_bucket key (print_int xid)) refl,
      (h, db.get_ext-put_ext s bucket_type ids_bucket key (print_int xid) (up s _ _ key _)),
    )

    db_get_and_set-Stored :
        (s : S) (key : Text) (x : ℕ)
        → Stored s key x
        → db_get_and_set db s key ≡ some (put_xid db s key (u32 (x + 1)) (u32 (x + 1)))
    unfolding db_get_and_set read_failed count_on
    db_get_and_set-Stored s key x (h, e) = rw (e, stored_xid-print_int x h) refl

    -- If the data base accepts every write and holds a number of 32 bits under "ingress_id2", then
    -- successive calls of db_get_unique_ingress_id return the numbers after it, one by one.
    pub allocate-successors :
        (n : ℕ) (s : S) (x : ℕ)
        → Stored s ingress_key x
        → (after : S) × (allocate n s ≡ some (after, successors n x))
    unfolding db_get_unique_ingress_id
    allocate-successors zero s x h = (s, refl)
    allocate-successors (suc n) s x h =
        let next = put_xid-Stored s ingress_key (u32 (x + 1)) (u32 (x + 1)) (omega arith) in
        let one = put_xid db s ingress_key (u32 (x + 1)) (u32 (x + 1)) in
        let (after, rest) = allocate-successors n one.0 (u32 (x + 1)) next.1 in
        (after, rw (db_get_and_set-Stored s ingress_key x h, rest, next.0) refl)

    -- If the data base accepts every write and holds a number of 32 bits under "egress_id", then
    -- db_set_egress_xid of a number of 32 bits returns 0, and db_get_egress_xid then that number.
    pub db_set_egress_xid-get :
        (s : S) (old xid : ℕ)
        → Stored s egress_key old
        → xid < 4294967296
        → (after : S) × ((db_set_egress_xid db s xid ≡ some (after, 0))
            × (db_get_egress_xid db after ≡ some xid))
    unfolding db_set_egress_xid db_get_egress_xid read_failed replace_egress put_xid
    db_set_egress_xid-get s old xid (h, e) k =
        let (result, (small, stored)) = put_xid-Stored s egress_key xid 0 k in
        (
          (put_xid db s egress_key xid 0).0,
          (
            rw
                (
                  e,
                  stored_xid-print_int old h,
                  up s bucket_type ids_bucket egress_key (print_int xid),
                )
                refl,
            rw (stored, stored_xid-print_int xid k) refl,
          ),
        )
