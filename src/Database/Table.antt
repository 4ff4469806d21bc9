-- ===== src/Database/Table.antt =====
-- A data base in memory, which has the laws of the Riak client that lib/db.c and
-- ospf6-sibling/ospf6_db.c use.
use harry.Base.{
  ◌≡◌, refl, Bool, true, false, ◌&&◌, List, [], ◌∷◌, ◌++◌, Option, none, some, arith, leb,
  if◌then◌else◌, Bool-cases, inl, inr, ap, sym,
}
use harry.Message.{rfpbuf_equal}
use harry.Message.Laws.{rfpbuf_equal_iff}
use harry.Database.Decimal.{Text, strtol}
use harry.Database.Riak.{Riak, ConsistentRiak}

-- A bucket, a key, the content and the index.
pub record Entry : Type 0 where
  pub bucket : Text
  pub key : Text
  pub content : Text
  pub index : Option Text

abbrev pub Table : Type 0
Table = List Entry

unfoldable pub is_at : Text → Text → Entry → Bool
is_at b k e = rfpbuf_equal b e.bucket && rfpbuf_equal k e.key

unfoldable pub get : Table → Text → Text → Option (List Text)
get [] b k = none
get (e ∷ es) b k = let rest = get es b k in if is_at b k e then some (e.content ∷ []) else rest

unfoldable pub put : Table → Entry → Table
put [] new = new ∷ []
put (e ∷ es) new =
    let rest = put es new in if is_at new.bucket new.key e then new ∷ es else e ∷ rest

unfoldable pub delete : Table → Text → Text → Table
delete [] b k = []
delete (e ∷ es) b k = let rest = delete es b k in if is_at b k e then rest else e ∷ rest

unfoldable pub keys_in : Table → Text → List Text
keys_in [] b = []
keys_in (e ∷ es) b =
    let rest = keys_in es b in if rfpbuf_equal b e.bucket then e.key ∷ rest else rest

unfoldable pub indexed : Text → Text → Option Text → Bool
indexed low high none = false
indexed low high (some i) = leb (strtol low) (strtol i) && leb (strtol i) (strtol high)

unfoldable pub range_in : Table → Text → Text → Text → List Text
unfolding indexed
range_in [] b low high = []
range_in (e ∷ es) b low high =
    let rest = range_in es b low high in
    if rfpbuf_equal b e.bucket && indexed low high e.index then e.key ∷ rest else rest

is_at-same : (e : Entry) → is_at e.bucket e.key e ≡ true
unfolding is_at
is_at-same e =
    rw ((rfpbuf_equal_iff e.bucket e.bucket).1 refl, (rfpbuf_equal_iff e.key e.key).1 refl) refl

is_at-both : (b k : Text) (e : Entry) → is_at b k e ≡ true → (b ≡ e.bucket) × (k ≡ e.key)
unfolding is_at
is_at-both b k e h = ground (arith, rfpbuf_equal_iff b e.bucket, rfpbuf_equal_iff k e.key)

-- Entries at one place answer alike.
is_at-alike :
    (new e : Entry) (b k : Text)
    → is_at new.bucket new.key e ≡ true
    → is_at b k new ≡ false
    → is_at b k e ≡ false
unfolding is_at
is_at-alike new e b k i h =
    let (eb, ek) = is_at-both new.bucket new.key e i in rw (sym eb, sym ek) h

pub get-put_same :
    (t : Table) (new : Entry) → get (put t new) new.bucket new.key ≡ some (new.content ∷ [])
unfolding get put
get-put_same [] new = rw (is_at-same new) refl
get-put_same (e ∷ es) new = elim (Bool-cases (is_at new.bucket new.key e)) [
  | inl h ↦ rw (h, is_at-same new) refl
  | inr h ↦ rw (h, h) (get-put_same es new)
]

pub get-put_else :
    (t : Table) (new : Entry) (b k : Text) → is_at b k new ≡ false → get (put t new) b k ≡ get t b k
unfolding get put
get-put_else [] new b k h = rw h refl
get-put_else (e ∷ es) new b k h = elim (Bool-cases (is_at new.bucket new.key e)) [
  | inl i ↦ rw (i, h, is_at-alike new e b k i h) refl
  | inr i ↦
      rw i (ap (λ r. if is_at b k e then some (e.content ∷ []) else r) (get-put_else es new b k h))
]

pub apart :
    (b k : Text) (new : Entry) → ¬ ((new.bucket ≡ b) × (new.key ≡ k)) → is_at b k new ≡ false
apart b k new differ = elim (Bool-cases (is_at b k new)) [
  | inl h ↦ let (eb, ek) = is_at-both b k new h in absurd (differ (sym eb, sym ek))
  | inr h ↦ h
]

abbrev entry : Text → Text → Text → Option Text → Entry
entry b k d i = record { bucket = b; key = k; content = d; index = i }

abbrev pub table_riak : Riak Table
table_riak = record {
  riack_get = get;
  riack_put = λ t b k d i. (put t (entry b k d i), true);
  riack_delete = λ t b k. (delete t b k, true);
  riack_list_keys = λ t b. some (keys_in t b);
  riack_2i_query_range = λ t b low high. some (range_in t b low high);
  behind = λ t b. 0 ∷ [];
  get-put = λ t b k d i h. get-put_same t (entry b k d i);
  get-put_other =
      λ t b k d i b' k' h. get-put_else t (entry b k d i) b' k' (apart b' k' (entry b k d i) h);
}

-- The bucket of a type is the bucket of the two names.
abbrev pub table_consistent : ConsistentRiak Table
table_consistent = record {
  riack_get_ext = λ t type b k. get t (type ++ b) k;
  riack_put_ext = λ t type b k d. (put t (entry (type ++ b) k d none), true);
  get_ext-put_ext = λ t type b k d h. get-put_same t (entry (type ++ b) k d none);
}
