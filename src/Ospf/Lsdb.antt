-- ===== src/Ospf/Lsdb.antt =====
-- The data base of LSAs (ospf6-sibling/ospf6_lsdb.c). The table (lib/table.c) holds the LSAs in the
-- order of their keys, which are the type, the advertising router and the id as they lie in memory.
use harry.Base.{
  ℕ, suc, ◌+◌, ◌-◌, ◌*◌, Bool, true, false, List, [], ◌∷◌, ◌++◌, Option, none, some, ltb, ◌==◌,
  if◌then◌else◌, u32, ◌>>=◌,
}
use harry.Ospf.Lsa.{Lsa, is_maxage, ospf6_lsa_is_changed}

-- The ten bytes of a key as one number.
unfoldable pub lsdb_key : ℕ → ℕ → ℕ → ℕ
lsdb_key type id adv_router = 18446744073709551616 * type + 4294967296 * adv_router + id

abbrev pub key_of : Lsa → ℕ
key_of lsa = lsdb_key lsa.lsa_type lsa.id lsa.adv_router

-- struct ospf6_lsdb; `hooks` says whether hook_add and hook_remove are set.
pub record Lsdb : Type 0 where
  pub lsas : List Lsa
  pub count : ℕ
  pub hooks : Bool

abbrev pub ospf6_lsdb_create : Lsdb
ospf6_lsdb_create = record { lsas = []; count = 0; hooks = false }

unfoldable pub find : ℕ → List Lsa → Option Lsa
find k [] = none
find k (x ∷ xs) = let rest = find k xs in if key_of x == k then some x else rest

unfoldable pub ospf6_lsdb_lookup : ℕ → ℕ → ℕ → Lsdb → Option Lsa
unfolding find
ospf6_lsdb_lookup type id adv_router db = find (lsdb_key type id adv_router) db.lsas

-- The table with a new LSA, in the place of the old one with its key or between its neighbours.
unfoldable pub place : Lsa → List Lsa → List Lsa
place lsa [] = lsa ∷ []
place lsa (x ∷ xs) =
    let rest = place lsa xs in
    if key_of lsa == key_of x
    then lsa ∷ xs
    else if ltb (key_of lsa) (key_of x)
    then lsa ∷ x ∷ xs
    else x ∷ rest

unfoldable pub unplace : ℕ → List Lsa → List Lsa
unplace k [] = []
unplace k (x ∷ xs) = let rest = unplace k xs in if key_of x == k then xs else x ∷ rest

pub data Hook : Type 0 where
  hook_add hook_remove : Lsa → Hook

-- The calls of the hooks in ospf6_lsdb_add, if they are set; `none` is a failed assertion.
unfoldable pub replaced_hooks : ℕ → Lsa → Lsa → Bool → List Hook
replaced_hooks now old lsa false = []
replaced_hooks now old lsa true =
    if is_maxage now lsa
    then hook_remove old ∷ hook_remove lsa ∷ []
    else if is_maxage now old
    then hook_add lsa ∷ []
    else hook_remove old ∷ hook_add lsa ∷ []

unfoldable pub add_hooks : ℕ → Option Lsa → Lsa → Option (List Hook)
unfolding replaced_hooks
add_hooks now none lsa =
    some (if is_maxage now lsa then hook_remove lsa ∷ [] else hook_add lsa ∷ [])
add_hooks now (some old) lsa =
    ospf6_lsa_is_changed now old lsa >>= λ changed. some (replaced_hooks now old lsa changed)

abbrev pub set_hooks : Bool → List Hook → List Hook
set_hooks false hs = []
set_hooks true hs = hs

unfoldable pub new_count : Option Lsa → ℕ → ℕ
new_count none n = suc n
new_count (some old) n = n

unfoldable pub ospf6_lsdb_add : ℕ → Lsa → Lsdb → Option (Lsdb × List Hook)
unfolding find place add_hooks new_count
ospf6_lsdb_add now lsa db =
    let old = find (key_of lsa) db.lsas in
    add_hooks now old lsa >>= λ calls. some (
      record { lsas = place lsa db.lsas; count = new_count old db.count; hooks = db.hooks },
      set_hooks db.hooks calls,
    )

-- ospf6_lsdb_remove; `none` is the failure of its assertion, that the key is in the table.
unfoldable pub ospf6_lsdb_remove : Lsa → Lsdb → Option (Lsdb × List Hook)
unfolding find unplace
ospf6_lsdb_remove lsa db = find (key_of lsa) db.lsas >>= λ old. some (
  record { lsas = unplace (key_of lsa) db.lsas; count = db.count - 1; hooks = db.hooks },
  set_hooks db.hooks (hook_remove lsa ∷ []),
)

-- The loop of ospf6_lsdb_remove_all over the LSAs.
unfoldable pub remove_each : List Lsa → Lsdb → Option (Lsdb × List Hook)
unfolding ospf6_lsdb_remove
remove_each [] db = some (db, [])
remove_each (x ∷ xs) db = ospf6_lsdb_remove x db >>= λ one.
    remove_each xs one.0 >>= λ more. some (more.0, one.1 ++ more.1)

unfoldable pub ospf6_lsdb_remove_all : Lsdb → Option (Lsdb × List Hook)
unfolding remove_each
ospf6_lsdb_remove_all db = remove_each db.lsas db

abbrev pub initial_sequence_number : ℕ
initial_sequence_number = 2147483649

-- ospf6_new_ls_seqnum, whose result is here in the order of the host.
abbrev pub next_seqnum : Option Lsa → ℕ
next_seqnum none = initial_sequence_number
next_seqnum (some lsa) = u32 (lsa.seqnum + 1)

unfoldable pub ospf6_new_ls_seqnum : ℕ → ℕ → ℕ → Lsdb → ℕ
unfolding ospf6_lsdb_lookup
ospf6_new_ls_seqnum type id adv_router db = next_seqnum (ospf6_lsdb_lookup type id adv_router db)
