-- ===== src/Ospf/Received.antt =====
-- What becomes of an LSA that a neighbor sends (ospf6_receive_lsa of ospf6-sibling/ospf6_flood.c).
use harry.Base.{
  ℕ, ◌/◌, ◌<◌, ◌≡◌, ◌≢◌, refl, sym, ◌∙◌, Bool, true, false, not, ◌&&◌, ◌||◌, List, [], Option, none,
  some, ◌==◌, if◌then◌else◌, ltb, ◌-◌, inl, inr, Bool-cases, All,
}
use harry.Ospf.Lsa.{Lsa, is_maxage, recency}
use harry.Ospf.Lsdb.{Lsdb, lsdb_key, key_of, find, ospf6_lsdb_lookup}
use harry.Ospf.State.{Task, Top, Sender}
use harry.Ospf.Flood.{Scope, linklocal, area_scope, as_scope, reserved, scope_of, listed}
use harry.Ospf.Checksum.{ospf6_lsa_checksum}
use harry.Ospf.Receive.{
  scoped_lsdb, is_newer, arrives_early, take_lsa, unless_known, ospf6_is_maxage_lsa_drop,
  unless_reserved, ospf6_receive_lsa,
}
use harry.Ospf.Stored.{added, find-place_same, find-place_other, added-Inv, Inv}
use harry.Ospf.Flooded.{Bounded, find-key, find-All, ospf6_lsa_compare_lem}
use harry.Ospf.Reached.{AreAsking}
use harry.Ospf.Kept.{take_older-Keeps}
use harry.Ospf.Places.{IsThere}
use harry.Ospf.Installed.{take_newer-stored}

-- Whether the data base takes a received LSA, given what it has for its key: it has nothing, or
-- something older that was installed a second ago or earlier. The time is in microseconds.
abbrev pub is_taken : ℕ → Lsa → Option Lsa → Bool
is_taken time new none = true
is_taken time new (some old) =
    is_newer (recency (time / 1000000) new old) && not (ltb (time - old.installed) 1000000)

abbrev pub is_unknown : Option Lsa → Bool
is_unknown none = true
is_unknown (some old) = false

-- Whether a received LSA is discarded at once: its checksum is wrong, or it is of MAXAGE, unknown, and
-- ospf6_is_maxage_lsa_drop happens to return a value that is not 0.
abbrev pub is_discarded : ℕ → Bool → Lsa → Lsdb → Bool
is_discarded now no_value new db =
    not (ospf6_lsa_checksum new == new.checksum)
    || (is_maxage now new && (is_unknown (listed new db) && no_value))

is_maxage_lsa_drop_lem :
    (now : ℕ) (no_value : Bool) (new : Lsa) (db : Lsdb)
    → ospf6_is_maxage_lsa_drop now no_value new db
      ≡ (is_maxage now new && (is_unknown (listed new db) && no_value))
unfolding ospf6_is_maxage_lsa_drop
is_maxage_lsa_drop_lem now no_value new db = elim (Bool-cases (is_maxage now new)) [
  | inl m ↦ rw m (by_copy (listed new db))
  | inr m ↦ rw m refl
]
  where
    by_copy : (o : Option Lsa) → unless_known o no_value ≡ (is_unknown o && no_value)
    by_copy none = refl
    by_copy (some old) = refl

take_lsa-stored :
    (time junk : ℕ) (s : Scope) (new : Lsa) (from : Sender) (db : Lsdb) (top : Top)
    → 20 < new.length
    → Bounded new
    → All (λ oa. AreAsking oa.if_list) top.area_list
    → IsThere from top
    → scoped_lsdb s from.at top ≡ some db
    → All (λ x. Bounded x × (20 < x.length)) db.lsas
    → (o : Option Lsa) → find (key_of new) db.lsas ≡ o
    → (after : Top) × ((tasks : List Task) × ((take_lsa time junk s new o from top
            ≡ some (after, tasks))
          × (scoped_lsdb s from.at after
              ≡ some (
                  if is_taken time new o then added (record new { installed = time }) db else db))))
unfolding take_lsa arrives_early
take_lsa-stored time junk s new from db top h b all t e olds none _ =
    take_newer-stored time junk s new
      (record { floodback = false; duplicate = false; implied_ack = false }) from db top h b all t e
take_lsa-stored time junk s new from db top h b all t e olds (some old) q =
    let now = time / 1000000 in
    let (ob, ol) = find-All (λ x. Bounded x × (20 < x.length)) (key_of new) db.lsas old olds q in
    let (aged, c) = ospf6_lsa_compare_lem now new old b ob (find-key (key_of new) db.lsas old q) in
    elim (Bool-cases (is_newer (recency now new old))) [
      | inl n ↦ elim (Bool-cases (ltb (time - old.installed) 1000000)) [
        | inl early ↦ (top, ([], (rw (c, n, early) refl, rw (n, early) e)))
        | inr late ↦
            let (after, (tasks, (p, stored))) =
              take_newer-stored time junk s new
                (record {
                  floodback = false;
                  duplicate = new.seqnum == old.seqnum;
                  implied_ack = false;
                })
                from db top h b all t e in
            (after, (tasks, (rw (c, n, late) p, rw (n, late) stored)))
      ]
      | inr n ↦
          let kept =
            take_older-Keeps s now (recency now new old) new old
              (record {
                floodback = false;
                duplicate = new.seqnum == old.seqnum;
                implied_ack = false;
              })
              from top t h ol in
          (kept.after, (kept.tasks, (rw (c, n) kept.returns, rw n (kept.kept ∙ e))))
    ]

-- Whether ospf6_receive_lsa stores an LSA, given the data base of its scope.
abbrev pub is_accepted : ℕ → Bool → Lsa → Lsdb → Bool
is_accepted time no_value new db =
    not (is_discarded (time / 1000000) no_value new db) && is_taken time new (listed new db)

unless_reserved_lem :
    (s : Scope) (from : Sender) (top : Top) (db : Lsdb) (received : Option (Top × List Task))
    → scoped_lsdb s from.at top ≡ some db
    → unless_reserved s top received ≡ received
unfolding unless_reserved scoped_lsdb
unless_reserved_lem linklocal from top db received e = refl
unless_reserved_lem area_scope from top db received e = refl
unless_reserved_lem as_scope from top db received e = refl
unless_reserved_lem reserved from top db received e = absurd cc

receive_lsa-scoped :
    (s : Scope) (time junk : ℕ) (no_value : Bool) (new : Lsa) (from : Sender) (db : Lsdb)
    (top : Top)
    → scope_of new.lsa_type ≡ s
    → 20 < new.length
    → Bounded new
    → All (λ oa. AreAsking oa.if_list) top.area_list
    → IsThere from top
    → scoped_lsdb s from.at top ≡ some db
    → All (λ x. Bounded x × (20 < x.length)) db.lsas
    → (after : Top) × ((tasks : List Task) × ((ospf6_receive_lsa time junk no_value new from top
            ≡ some (after, tasks))
          × (scoped_lsdb s from.at after
              ≡ some (
                  if is_accepted time no_value new db
                  then added (record new { installed = time }) db
                  else db))))
unfolding ospf6_receive_lsa ospf6_lsdb_lookup
receive_lsa-scoped s time junk no_value new from db top q h b all t e olds =
    let (after, (tasks, (p, stored))) =
      take_lsa-stored time junk s new from db top h b all t e olds (listed new db) refl in
    elim (Bool-cases (ospf6_lsa_checksum new == new.checksum)) [
      | inr bad ↦ (top, ([], (rw bad refl, rw bad e)))
      | inl good ↦ elim (Bool-cases (ospf6_is_maxage_lsa_drop (time / 1000000) no_value new db)) [
        | inl drop ↦
            let dropped = sym (is_maxage_lsa_drop_lem (time / 1000000) no_value new db) ∙ drop in
            (
              top,
              (
                [],
                (
                  rw (good, q, e, drop) (unless_reserved_lem s from top db (some (top, [])) e),
                  rw (good, dropped) e,
                ),
              ),
            )
        | inr keep ↦
            let stays = sym (is_maxage_lsa_drop_lem (time / 1000000) no_value new db) ∙ keep in
            (
              after,
              (
                tasks,
                (
                  rw (good, q, e, keep, p)
                      (unless_reserved_lem s from top db (some (after, tasks)) e),
                  rw (good, stays) stored,
                ),
              ),
            )
      ]
    ]

-- An LSA with a body comes from a neighbor on an interface; the ids and routers of LSAs have 32
-- bits, and the LSAs of the data base of its scope, which is in the order of keys and counted, have
-- bodies. Then ospf6_receive_lsa fails no assertion. It stores the LSA, with the time of its
-- receipt, exactly when the checksum is right, the LSA is not of MAXAGE, unknown and dropped by a
-- value that ospf6_is_maxage_lsa_drop happens to return, and the data base has nothing under its
-- key, or something older that was installed a second ago or earlier. Otherwise the data base has
-- for the key what it had; it always has for any other key what it had, and stays in the order of
-- keys and counted.
pub ospf6_receive_lsa-stored :
    (time junk : ℕ) (no_value : Bool) (new : Lsa) (from : Sender) (db : Lsdb) (top : Top)
    (type id adv_router : ℕ)
    → 20 < new.length
    → Bounded new
    → All (λ oa. AreAsking oa.if_list) top.area_list
    → IsThere from top
    → scoped_lsdb (scope_of new.lsa_type) from.at top ≡ some db
    → All (λ x. Bounded x × (20 < x.length)) db.lsas
    → Inv db
    → lsdb_key type id adv_router ≢ key_of new
    → (after : Top) × ((tasks : List Task) × ((db' : Lsdb) × ((ospf6_receive_lsa time junk no_value
                new from top
              ≡ some (after, tasks))
            × ((scoped_lsdb (scope_of new.lsa_type) from.at after ≡ some db')
                × (Inv db'
                    × ((listed new db' ≡ (
                          if is_accepted time no_value new db
                          then some (record new { installed = time })
                          else listed new db))
                        × (ospf6_lsdb_lookup type id adv_router db'
                            ≡ ospf6_lsdb_lookup type id adv_router db)))))))
unfolding ospf6_lsdb_lookup
ospf6_receive_lsa-stored time junk no_value new from db top type id adv_router h b all t e olds inv
      d =
    let (after, (tasks, (p, stored))) =
      receive_lsa-scoped (scope_of new.lsa_type) time junk no_value new from db top refl h b all t e
        olds in
    let lsa' = record new { installed = time } in
    elim (Bool-cases (is_accepted time no_value new db)) [
      | inl a ↦ (
        after,
        (
          tasks,
          (
            added lsa' db,
            (
              p,
              (
                rw a at stored,
                (
                  added-Inv lsa' db inv,
                  (
                    rw a (find-place_same lsa' db.lsas),
                    find-place_other lsa' (lsdb_key type id adv_router) db.lsas (λ q. d (sym q)),
                  ),
                ),
              ),
            ),
          ),
        ),
      )
      | inr a ↦ (after, (tasks, (db, (p, (rw a at stored, (inv, (rw a refl, refl)))))))
    ]
