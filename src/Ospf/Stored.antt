-- ===== src/Ospf/Stored.antt =====
-- What the data base of LSAs keeps (ospf6-sibling/ospf6_lsdb.c).
use harry.Base.{
  ℕ, suc, ◌-◌, ◌<◌, ◌≡◌, ◌≢◌, refl, sym, ap, ◌∙◌, Bool, List, [], ◌∷◌, ◌++◌, Option, none, some,
  arith, length, lt_or_le, inl, inr, Option-cases, ==_iff, ◌⊎◌, subst,
}
use harry.Ospf.Lsa.{Lsa, ospf6_lsa_is_changed}
use harry.Ospf.Lsdb.{
  lsdb_key, key_of, Lsdb, find, ospf6_lsdb_lookup, place, unplace, add_hooks, new_count,
  ospf6_lsdb_add, ospf6_lsdb_remove, Hook, hook_remove, replaced_hooks, set_hooks, remove_each,
  ospf6_lsdb_remove_all,
}

-- Keys in ascending order, each above a bound.
abbrev pub Above : ℕ → List Lsa → Type 0
Above k [] = Unit
Above k (x ∷ xs) = (k < suc (key_of x)) × Above (suc (key_of x)) xs

-- The LSAs are in the order of their keys, no two with one key, and are counted.
pub record Inv (db : Lsdb) : Type 0 where
  pub ordered : Above 0 db.lsas
  pub counted : db.count ≡ length db.lsas

is_changed-not_none : (now : ℕ) (a b : Lsa) → 20 < b.length → ospf6_lsa_is_changed now a b ≢ none
unfolding ospf6_lsa_is_changed
is_changed-not_none now a b h = ground arith

is_changed-some :
    (now : ℕ) (a b : Lsa)
    → 20 < b.length
    → (changed : Bool) × (ospf6_lsa_is_changed now a b ≡ some changed)
is_changed-some now a b h = elim (Option-cases (ospf6_lsa_is_changed now a b)) [
  | inl e ↦ absurd (is_changed-not_none now a b h e)
  | inr found ↦ found
]

pub find-place_same : (lsa : Lsa) (xs : List Lsa) → find (key_of lsa) (place lsa xs) ≡ some lsa
unfolding find place
find-place_same lsa [] = ground arith
find-place_same lsa (x ∷ xs) = ground (arith, find-place_same lsa xs)

pub find-place_other :
    (lsa : Lsa) (k : ℕ) (xs : List Lsa) → key_of lsa ≢ k → find k (place lsa xs) ≡ find k xs
unfolding find place
find-place_other lsa k [] h = ground arith
find-place_other lsa k (x ∷ xs) h = ground (arith, find-place_other lsa k xs h)

place-equal : (lsa x : Lsa) (xs : List Lsa) → key_of lsa ≡ key_of x → place lsa (x ∷ xs) ≡ lsa ∷ xs
unfolding place
place-equal lsa x xs e = rw ((==_iff (key_of lsa) (key_of x)).1 e) refl

place-less :
    (lsa x : Lsa) (xs : List Lsa) → key_of lsa < key_of x → place lsa (x ∷ xs) ≡ lsa ∷ x ∷ xs
unfolding place
place-less lsa x xs l = ground arith

pub place-greater :
    (lsa x : Lsa) (xs : List Lsa) → key_of x < key_of lsa → place lsa (x ∷ xs) ≡ x ∷ place lsa xs
unfolding place
place-greater lsa x xs l = ground arith

pub trichotomy : (a b : ℕ) → (a < b) ⊎ ((a ≡ b) ⊎ (b < a))
trichotomy a b = elim (lt_or_le a b) [
  | inl l ↦ inl l
  | inr l ↦ elim (lt_or_le b a) [ inl r ↦ inr (inr r) | inr r ↦ inr (inl (omega arith)) ]
]

place-Above :
    (b : ℕ) (lsa : Lsa) (xs : List Lsa) → b < suc (key_of lsa) → Above b xs → Above b (place lsa xs)
place-Above b lsa [] h a = unfold place in (h, tt)
place-Above b lsa (x ∷ xs) h a = elim (trichotomy (key_of lsa) (key_of x)) [
  | inl l ↦ rw (place-less lsa x xs l) (h, (omega arith, a.1))
  | inr (inl e) ↦ rw (place-equal lsa x xs e) (h, subst (λ k. Above (suc k) xs) (sym e) a.1)
  | inr (inr l) ↦
      rw (place-greater lsa x xs l) (a.0, place-Above (suc (key_of x)) lsa xs (omega arith) a.1)
]

pub find-below : (k b : ℕ) (xs : List Lsa) → k < b → Above b xs → find k xs ≡ none
unfolding find
find-below k b [] h a = refl
find-below k b (x ∷ xs) h a =
    ground (arith, find-below k (suc (key_of x)) xs (omega (arith, a.0)) a.1)

pub find-equal : (k : ℕ) (x : Lsa) (xs : List Lsa) → key_of x ≡ k → find k (x ∷ xs) ≡ some x
unfolding find
find-equal k x xs e = rw ((==_iff (key_of x) k).1 e) refl

pub find-differ : (k : ℕ) (x : Lsa) (xs : List Lsa) → key_of x ≢ k → find k (x ∷ xs) ≡ find k xs
unfolding find
find-differ k x xs d = ground arith

new_count-suc : (o : Option Lsa) (n : ℕ) → new_count o (suc n) ≡ suc (new_count o n)
unfolding new_count
new_count-suc none n = refl
new_count-suc (some x) n = refl

length-place :
    (lsa : Lsa) (xs : List Lsa) (b : ℕ)
    → Above b xs
    → length (place lsa xs) ≡ new_count (find (key_of lsa) xs) (length xs)
length-place lsa [] b a = unfold place find new_count in refl
length-place lsa (x ∷ xs) b a = elim (trichotomy (key_of lsa) (key_of x)) [
  | inl l ↦
      let absent = find-below (key_of lsa) (suc (key_of x)) xs (omega arith) a.1 in
      rw (place-less lsa x xs l, find-differ (key_of lsa) x xs (omega arith), absent)
        (unfold new_count in refl)
  | inr (inl e) ↦
      rw (place-equal lsa x xs e, find-equal (key_of lsa) x xs (sym e)) (unfold new_count in refl)
  | inr (inr l) ↦
      rw
        (
          place-greater lsa x xs l,
          find-differ (key_of lsa) x xs (omega arith),
          new_count-suc (find (key_of lsa) xs) (length xs),
        )
        (ap suc (length-place lsa xs (suc (key_of x)) a.1))
]

add_hooks-some :
    (now : ℕ) (old : Option Lsa) (lsa : Lsa)
    → 20 < lsa.length
    → (calls : List Hook) × (add_hooks now old lsa ≡ some calls)
unfolding add_hooks
add_hooks-some now none lsa h = (_, refl)
add_hooks-some now (some old) lsa h =
    let (changed, e) = is_changed-some now old lsa h in
    (replaced_hooks now old lsa changed, rw e refl)

abbrev pub added : Lsa → Lsdb → Lsdb
added lsa db = record {
  lsas = place lsa db.lsas;
  count = new_count (find (key_of lsa) db.lsas) db.count;
  hooks = db.hooks;
}

pub added-Inv : (lsa : Lsa) (db : Lsdb) → Inv db → Inv (added lsa db)
added-Inv lsa db inv = record {
  ordered = place-Above 0 lsa db.lsas (omega arith) inv.ordered;
  counted =
      ap (new_count (find (key_of lsa) db.lsas)) inv.counted
      ∙ sym (length-place lsa db.lsas 0 inv.ordered);
}

-- The result of ospf6_lsdb_add for an LSA with a body.
pub ospf6_lsdb_add_lem :
    (now : ℕ) (lsa : Lsa) (db : Lsdb)
    → 20 < lsa.length
    → (calls : List Hook) × (ospf6_lsdb_add now lsa db ≡ some (added lsa db, calls))
unfolding ospf6_lsdb_add
ospf6_lsdb_add_lem now lsa db h =
    let (calls, e) = add_hooks-some now (find (key_of lsa) db.lsas) lsa h in
    (set_hooks db.hooks calls, rw e refl)

-- An LSA with a body can be added to a data base that is in the order of keys, with no two LSAs of
-- one key, and counted. No assertion fails, the data base stays so, the LSA is then found under its
-- key, and every other key finds what it found before.
pub ospf6_lsdb_add-Inv :
    (now : ℕ) (lsa : Lsa) (db : Lsdb) (type id adv_router : ℕ)
    → 20 < lsa.length
    → Inv db
    → lsdb_key type id adv_router ≢ key_of lsa
    → (after : Lsdb) × ((calls : List Hook) × ((ospf6_lsdb_add now lsa db ≡ some (after, calls))
          × (Inv after
              × ((ospf6_lsdb_lookup lsa.lsa_type lsa.id lsa.adv_router after ≡ some lsa)
                  × (ospf6_lsdb_lookup type id adv_router after
                      ≡ ospf6_lsdb_lookup type id adv_router db)))))
unfolding ospf6_lsdb_lookup
ospf6_lsdb_add-Inv now lsa db type id adv_router h inv d =
    let (calls, e) = ospf6_lsdb_add_lem now lsa db h in
    (
      added lsa db,
      (
        calls,
        (
          e,
          (
            added-Inv lsa db inv,
            (
              find-place_same lsa db.lsas,
              find-place_other lsa (lsdb_key type id adv_router) db.lsas (λ q. d (sym q)),
            ),
          ),
        ),
      ),
    )

pub unplace-head : (x : Lsa) (xs : List Lsa) → unplace (key_of x) (x ∷ xs) ≡ xs
unfolding unplace
unplace-head x xs = rw ((==_iff (key_of x) (key_of x)).1 refl) refl

abbrev holding : List Lsa → Bool → Lsdb
holding xs hooks = record { lsas = xs; count = length xs; hooks = hooks }

remove_each-holding :
    (xs : List Lsa) (hooks : Bool)
    → (calls : List Hook) × (remove_each xs (holding xs hooks) ≡ some (holding [] hooks, calls))
unfolding remove_each ospf6_lsdb_remove
remove_each-holding [] hooks = ([], refl)
remove_each-holding (x ∷ xs) hooks =
    let (calls, e) = remove_each-holding xs hooks in
    (
      set_hooks hooks (hook_remove x ∷ []) ++ calls,
      rw (find-equal (key_of x) x xs refl, unplace-head x xs, suc_minus_one (length xs), e) refl,
    )
  where
    suc_minus_one : (n : ℕ) → suc n - 1 ≡ n
    suc_minus_one n = omega arith

-- A data base whose LSAs are counted is empty after ospf6_lsdb_remove_all, and counted as empty, and
-- no assertion fails.
pub ospf6_lsdb_remove_all-empty :
    (db : Lsdb)
    → db.count ≡ length db.lsas
    → (after : Lsdb) × ((calls : List Hook) × ((ospf6_lsdb_remove_all db ≡ some (after, calls))
          × ((after.lsas ≡ []) × (after.count ≡ 0))))
unfolding ospf6_lsdb_remove_all
ospf6_lsdb_remove_all-empty db h =
    let (calls, e) = remove_each-holding db.lsas db.hooks in
    (
      holding [] db.hooks,
      (
        calls,
        (
          ap (λ n. remove_each db.lsas (record { lsas = db.lsas; count = n; hooks = db.hooks })) h
              ∙ e,
          (refl, refl),
        ),
      ),
    )
