-- ===== src/Database/Riak.antt =====
-- The Riak client, which lib/db.c and ospf6-sibling/ospf6_db.c call: what they use of it, as records
-- of operations with the laws of the data base's documentation.
use harry.Base.{◌≡◌, Bool, true, List, [], ◌∷◌, Option, some}
use harry.Database.Decimal.{Text}

-- Buckets of the default type. `none` is a result other than RIACK_SUCCESS; riack_get returns the
-- contents of an object, of which there are several after conflicting writes. A write returns
-- whether it succeeded, and may come with a value of the secondary index.
pub record Riak (S : Type 0) : Type 0 where
  pub riack_get : S → Text → Text → Option (List Text)
  pub riack_put : S → Text → Text → Text → Option Text → S × Bool
  pub riack_delete : S → Text → Text → S × Bool
  pub riack_list_keys : S → Text → Option (List Text)
  pub riack_2i_query_range : S → Text → Text → Text → Option (List Text)
  -- What lies in memory behind the copy that ospf6_db_get_xid makes of the "cur_xid" of a bucket: the
  -- copy has no terminator.
  pub behind : S → Text → Text
  -- A write that succeeds is what the next read returns, and changes no other object.
  pub get-put :
      (s : S) (b k d : Text) (i : Option Text)
      → (riack_put s b k d i).1 ≡ true
      → riack_get (riack_put s b k d i).0 b k ≡ some (d ∷ [])
  pub get-put_other :
      (s : S) (b k d : Text) (i : Option Text) (b' k' : Text)
      → ¬ ((b ≡ b') × (k ≡ k'))
      → riack_get (riack_put s b k d i).0 b' k' ≡ riack_get s b' k'

-- Buckets of a type, here that of strong consistency: riack_get_ext and riack_put_ext with the
-- type, the bucket and the key.
pub record ConsistentRiak (S : Type 0) : Type 0 where
  pub riack_get_ext : S → Text → Text → Text → Option (List Text)
  pub riack_put_ext : S → Text → Text → Text → Text → S × Bool
  pub get_ext-put_ext :
      (s : S) (t b k d : Text)
      → (riack_put_ext s t b k d).1 ≡ true
      → riack_get_ext (riack_put_ext s t b k d).0 t b k ≡ some (d ∷ [])
