-- ===== src/Database/Ids.antt =====
-- The numbers that lib/db.c keeps in a strongly consistent bucket. An `int` is the number of 32 bits
-- that it is converted to, so that -1 is 4294967295; `none` is a write over the end of a buffer, or the free of a literal.
use harry.Base.{
  ℕ, ◌+◌, Bool, true, false, List, [], ◌∷◌, Option, none, some, u32, if◌then◌else◌, ◌>>=◌,
}
use harry.Database.Decimal.{Text, codes, print_int, strtol}
use harry.Database.Riak.{ConsistentRiak}
use harry.Database.Json.{fit}

abbrev pub minus_one : ℕ
minus_one = 4294967295

abbrev pub bucket_type : Text
bucket_type = codes "strongly_consistent2"

abbrev pub ids_bucket : Text
ids_bucket = codes "ids"

abbrev pub ingress_key : Text
ingress_key = codes "ingress_id2"

abbrev pub egress_key : Text
egress_key = codes "egress_id"

-- The size of `output_data`.
abbrev pub output_size : ℕ
output_size = 30

module _ {S : Type 0} (db : ConsistentRiak S) where
  -- The number that is read, where the object has one content; otherwise the result without one.
  unfoldable pub stored_xid : Option (List Text) → Option (Option ℕ)
  stored_xid (some (d ∷ [])) = fit output_size d >>= λ text. some (some (strtol text))
  stored_xid _ = some none

  unfoldable pub read_failed : Option (List Text) → Bool
  read_failed none = true
  read_failed (some ds) = false

  -- The write of a number, and the result on either outcome.
  unfoldable pub put_xid : S → Text → ℕ → ℕ → S × ℕ
  put_xid s key xid result =
      let put = db.riack_put_ext s bucket_type ids_bucket key (print_int xid) in
      (put.0, if put.1 then result else minus_one)

  unfoldable pub count_on : S → Text → Option ℕ → S × ℕ
  unfolding put_xid
  count_on s key none = (s, 0)
  count_on s key (some xid) = put_xid s key (u32 (xid + 1)) (u32 (xid + 1))

  unfoldable pub db_get_and_set : S → Text → Option (S × ℕ)
  unfolding stored_xid read_failed count_on
  db_get_and_set s key =
      let object = db.riack_get_ext s bucket_type ids_bucket key in
      if read_failed object
      then some (s, minus_one)
      else (stored_xid object >>= λ xid. some (count_on s key xid))

  unfoldable pub db_get_unique_ingress_id : S → Option (S × ℕ)
  unfolding db_get_and_set
  db_get_unique_ingress_id s = db_get_and_set s ingress_key

  abbrev or_zero : Option ℕ → ℕ
  or_zero none = 0
  or_zero (some xid) = xid

  unfoldable pub db_get_egress_xid : S → Option ℕ
  unfolding stored_xid read_failed
  db_get_egress_xid s =
      let object = db.riack_get_ext s bucket_type ids_bucket egress_key in
      if read_failed object
      then some minus_one
      else (stored_xid object >>= λ xid. some (or_zero xid))

  -- On a failed write the code frees a string literal.
  unfoldable pub replace_egress : S → ℕ → Option ℕ → Option (S × ℕ)
  replace_egress s xid none = some (s, minus_one)
  replace_egress s xid (some old) =
      let put = db.riack_put_ext s bucket_type ids_bucket egress_key (print_int xid) in
      if put.1 then some (put.0, 0) else none

  unfoldable pub db_set_egress_xid : S → ℕ → Option (S × ℕ)
  unfolding stored_xid read_failed replace_egress
  db_set_egress_xid s xid =
      let object = db.riack_get_ext s bucket_type ids_bucket egress_key in
      if read_failed object
      then some (s, minus_one)
      else (stored_xid object >>= replace_egress s xid)
