-- ===== src/Database/Keys.antt =====
-- The lists of keys of lib/db.c, and ospf6_db_last_key of ospf6-sibling/ospf6_db.c.
use harry.Base.{ℕ, Bool, true, false, List, [], ◌∷◌, Option, none, some, ltb, if◌then◌else◌, ◌>>=◌}
use harry.Database.Decimal.{Text, print_int, scan_int, strtol}
use harry.Database.Riak.{Riak}

-- The negative, zero and positive results of a comparison.
pub data Sign : Type 0 where
  less same greater : Sign

abbrev pub is_greater : Sign → Bool
is_greater greater = true
is_greater _ = false

abbrev pub or_else : ℕ → Option ℕ → ℕ
or_else junk none = junk
or_else junk (some n) = n

abbrev pub sign : ℕ → ℕ → Sign
sign a b = if ltb a b then less else if ltb b a then greater else same

-- keys_compare. Where a key is no number, sscanf leaves a_xid or b_xid as it was: not initialised,
-- and here the first or the second number of `junk`.
unfoldable pub keys_compare : ℕ × ℕ → Text → Text → Sign
keys_compare junk a b = sign (or_else junk.0 (scan_int a)) (or_else junk.1 (scan_int b))

-- qsort with keys_compare, which leaves one order only where no two keys are the same.
unfoldable pub insert_key : ℕ × ℕ → Text → List Text → List Text
unfolding keys_compare
insert_key junk k [] = k ∷ []
insert_key junk k (x ∷ xs) =
    let rest = insert_key junk k xs in
    if is_greater (keys_compare junk k x) then x ∷ rest else k ∷ x ∷ xs

unfoldable pub qsort : ℕ × ℕ → List Text → List Text
unfolding insert_key
qsort junk [] = []
qsort junk (k ∷ ks) = insert_key junk k (qsort junk ks)

-- The keys that a query returns, or none if it fails.
abbrev pub keys_of : ℕ × ℕ → Bool → Option (List Text) → List Text
keys_of junk sort_req none = []
keys_of junk sort_req (some ks) = if sort_req then qsort junk ks else ks

-- strtol of the last key; without a key it reads before the array.
abbrev pub last_of : List Text → Option Text
last_of [] = none
last_of (k ∷ []) = some k
last_of (k ∷ j ∷ ks) = last_of (j ∷ ks)

module _ {S : Type 0} (db : Riak S) (junk : ℕ × ℕ) where
  unfoldable pub db_list_keys : S → ℕ → Bool → List Text
  unfolding qsort
  db_list_keys s bucket sort_req = keys_of junk sort_req (db.riack_list_keys s (print_int bucket))

  unfoldable pub db_range_keys : S → ℕ → ℕ → ℕ → Bool → List Text
  unfolding qsort
  db_range_keys s bucket start_xid end_xid sort_req =
      keys_of junk sort_req
        (db.riack_2i_query_range s (print_int bucket) (print_int start_xid) (print_int end_xid))

  unfoldable pub ospf6_db_list_keys : S → ℕ → List Text
  unfolding db_list_keys
  ospf6_db_list_keys s bucket = db_list_keys s bucket true

  unfoldable pub ospf6_db_range_keys : S → ℕ → ℕ → ℕ → List Text
  unfolding db_range_keys
  ospf6_db_range_keys s bucket start_xid end_xid = db_range_keys s bucket start_xid end_xid true

  unfoldable pub ospf6_db_last_key : S → ℕ → Option ℕ
  unfolding ospf6_db_list_keys
  ospf6_db_last_key s bucket = last_of (ospf6_db_list_keys s bucket) >>= λ key. some (strtol key)
