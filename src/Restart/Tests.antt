-- ===== src/Restart/Tests.antt =====
-- The theorems on restarted and slow replicas at a concrete data base.
use Prim.Native.Nat.{◌≤◌}
use Prim.Native.String.{String}
use mathlib.Core.List.Perm
use harry.Base.{
  ℕ, zero, suc, ◌+◌, ◌<◌, ◌≡◌, ◌↔◌, refl, List, [], ◌∷◌, ◌++◌, map, none, some, Bool, true, false,
  arith, count_if, ltb,
}
use harry.Message.{Rfpbuf, rh_xid, htonl, rfpbuf_equal}
use harry.Sibling.State.{Sibling, sc_init, Process}
use harry.Database.Decimal.{Text, codes, digits, print_int, scan_int, strtol}
use harry.Database.Checkpoint.{current_xid, ospf6_db_get, ospf6_db_get_current_xid}
use harry.Database.Keys.{ospf6_db_last_key}
use harry.Database.Table.{Table, Entry, table_riak, get, is_at, keys_in, range_in, indexed}
use harry.Restart.Replay.{
  Received, received_xid, ospf6_replica_get_leader_id, left_restart, ospf6_restart_start,
  ospf6_catchup_start, ospf6_replica_check_for_slowness,
}
use harry.Restart.Continuity.{ospf6_restart_start-upto}
use harry.Restart.Catchup.{ospf6_catchup_start-upto}
use harry.Restart.Slowness.{beyond, ospf6_replica_check_for_slowness_iff}

abbrev at : String → String → String → Entry
at b k d = record { bucket = codes b; key = codes k; content = codes d; index = some (codes k) }

abbrev current : String → String → Entry
current b d = record { bucket = codes b; key = current_xid; content = codes d; index = none }

-- The replica 4 has processed the messages 1 and 2, and the leader 5 those up to 4.
abbrev store : Table
store =
    at "4" "2" "b"
    ∷ at "4" "1" "a"
    ∷ current "4" "2"
    ∷ at "5" "1" "a"
    ∷ at "5" "4" "d"
    ∷ at "5" "3" "c"
    ∷ at "5" "2" "b"
    ∷ current "5" "4"
    ∷ []

abbrev replica : ℕ → Bool → Sibling
replica id leads = record {
  sibling_addr = id;
  leader = leads;
  valid = true;
  id_valid = true;
  id = id;
}

abbrev process : List Rfpbuf → Process
process queue = record {
  own_replica = replica 4 false;
  replicas = replica 6 false ∷ replica 5 true ∷ [];
  ctrl_clients = [];
  sc_state = sc_init;
  scheduled_hellos = false;
  restart_mode = true;
  restarted_first_egress_not_sent = true;
  restart_msg_queue = queue;
  debug_replica = true;
  out = [];
}

abbrev message : ℕ → Rfpbuf
message xid = 1 ∷ 23 ∷ 0 ∷ 8 ∷ 0 ∷ 0 ∷ 0 ∷ xid ∷ []

-- The texts of the messages 1 to 4.
abbrev text : ℕ → Text
text zero = []
text (suc x) = (97 + x) ∷ []

own_texts : (x : ℕ) → 1 ≤ x → x < 3 → ospf6_db_get table_riak store x 4 ≡ some (text x)
unfolding ospf6_db_get get is_at print_int digits rfpbuf_equal
own_texts zero l h = absurd (omega arith)
own_texts (suc zero) l h = refl
own_texts (suc (suc zero)) l h = refl
own_texts (suc (suc (suc x))) l h = absurd (omega arith)

leader_texts : (x : ℕ) → 2 < x → x ≤ 4 → ospf6_db_get table_riak store x 5 ≡ some (text x)
unfolding ospf6_db_get get is_at print_int digits rfpbuf_equal
leader_texts zero l h = absurd (omega arith)
leader_texts (suc zero) l h = absurd (omega arith)
leader_texts (suc (suc zero)) l h = absurd (omega arith)
leader_texts (suc (suc (suc zero))) l h = refl
leader_texts (suc (suc (suc (suc zero)))) l h = refl
leader_texts (suc (suc (suc (suc (suc x))))) l h = absurd (omega arith)

known : (queue : List Rfpbuf) → ospf6_replica_get_leader_id (process queue) ≡ some 5
unfolding ospf6_replica_get_leader_id
known queue = refl

queried :
    some (range_in store (print_int 5) (print_int 3) (print_int 4))
    ≡ some (map print_int (4 ∷ 3 ∷ []))
unfolding range_in indexed strtol scan_int print_int digits rfpbuf_equal
queried = refl

listed : some (keys_in store (print_int 4)) ≡ some (map print_int (2 ∷ 1 ∷ []) ++ current_xid ∷ [])
unfolding keys_in print_int digits rfpbuf_equal
listed = refl

ospf6_restart_start-upto_example :
    ((calls : List Received) × ((ospf6_restart_start table_riak
            (9, 9)
            store
            (process (message 5 ∷ message 6 ∷ []))
            0
            1
          ≡ some (left_restart (process (message 5 ∷ message 6 ∷ [])), calls))
        × (map received_xid calls ≡ 1 ∷ 2 ∷ 3 ∷ 4 ∷ 5 ∷ 6 ∷ [])))
    × ((own_calls : List Received) × ((ospf6_restart_start table_riak
              (9, 9)
              store
              (process (message 5 ∷ message 6 ∷ []))
              0
              0
            ≡ some (left_restart (process (message 5 ∷ message 6 ∷ [])), own_calls))
          × (map received_xid own_calls ≡ 1 ∷ 2 ∷ [])))
ospf6_restart_start-upto_example =
    ospf6_restart_start-upto table_riak (9, 9) store (process (message 5 ∷ message 6 ∷ [])) 1 1 2 1
      5 1 0 (2 ∷ 1 ∷ []) (4 ∷ 3 ∷ []) text text (omega arith) listed (Perm.swap 1 2 [])
      (omega arith) own_texts (known (message 5 ∷ message 6 ∷ [])) queried (Perm.swap 3 4 [])
      leader_texts queue (omega arith)
  where
    queue : map rh_xid (message 5 ∷ message 6 ∷ []) ≡ 5 ∷ 6 ∷ []
    queue = unfold rh_xid htonl in refl

-- The message 4 of the leader is received twice.
ospf6_catchup_start-upto_example :
    (calls : List Received) × ((ospf6_catchup_start table_riak
          (0, 0)
          store
          (process (message 3 ∷ message 4 ∷ message 5 ∷ []))
        ≡ some (left_restart (process (message 3 ∷ message 4 ∷ message 5 ∷ [])), calls))
      × (map received_xid calls ≡ (3 ∷ 4 ∷ []) ++ (4 ∷ 5 ∷ [])))
ospf6_catchup_start-upto_example =
    ospf6_catchup_start-upto table_riak (0, 0) store
      (process (message 3 ∷ message 4 ∷ message 5 ∷ [])) 2 2 3 1 1 5 (4 ∷ 3 ∷ []) text (omega arith)
      last (known (message 3 ∷ message 4 ∷ message 5 ∷ [])) leads queried (Perm.swap 3 4 [])
      leader_texts queue (omega arith) (omega arith)
  where
    last : ospf6_db_last_key table_riak (0, 0) store 4 ≡ some 2
    last = unfold ospf6_db_last_key keys_in print_int digits rfpbuf_equal scan_int strtol in refl

    leads : ospf6_db_get_current_xid table_riak store 5 ≡ 4
    leads =
        unfold ospf6_db_get_current_xid get is_at print_int digits rfpbuf_equal scan_int strtol in
        refl

    queue : map rh_xid (message 3 ∷ message 4 ∷ message 5 ∷ []) ≡ 3 ∷ 4 ∷ 5 ∷ []
    queue = unfold rh_xid htonl in refl

-- Five replicas have processed the message 8, and the replica 4 the message 2.
abbrev slow_store : Table
slow_store =
    current "4" "2"
    ∷ current "1" "8"
    ∷ current "2" "8"
    ∷ current "3" "8"
    ∷ current "5" "8"
    ∷ current "6" "8"
    ∷ []

abbrev slow_process : Process
slow_process = record (process []) {
  replicas =
      replica 1 false ∷ replica 2 false ∷ replica 3 false ∷ replica 5 true ∷ replica 6 false ∷ [];
}

ospf6_replica_check_for_slowness_example :
    ((ospf6_replica_check_for_slowness table_riak slow_store slow_process).1 ≡ true) ↔ (
      5
      ≤ count_if
          (beyond 4
            (ospf6_db_get_current_xid table_riak slow_store 4)
            (ospf6_db_get_current_xid table_riak slow_store))
          slow_process.replicas)
unfolding ospf6_db_get_current_xid get is_at print_int digits rfpbuf_equal scan_int strtol
ospf6_replica_check_for_slowness_example =
    ospf6_replica_check_for_slowness_iff table_riak slow_store slow_process (small 4 2 refl refl) (
      small 1 8 refl refl,
      (
        small 2 8 refl refl,
        (small 3 8 refl refl, (small 5 8 refl refl, (small 6 8 refl refl, tt))),
      ),
    )
  where
    small :
        (id xid : ℕ)
        → ospf6_db_get_current_xid table_riak slow_store id ≡ xid
        → ltb xid 2147483648 ≡ true
        → ospf6_db_get_current_xid table_riak slow_store id < 2147483648
    small id xid e h = ground (arith, e)
