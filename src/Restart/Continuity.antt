-- ===== src/Restart/Continuity.antt =====
-- What a restarted replica hands to ospf6_receive (ospf6-sibling/ospf6_restart.c).
use Prim.Native.Nat.{◌≤◌}
use mathlib.Core.List.{Perm}
use harry.Base.{
  ℕ, suc, ◌+◌, ◌<◌, ◌≡◌, ◌≢◌, refl, ap, append-nil, ap₂, ◌∙◌, false, List, [], ◌∷◌, ◌++◌, some,
  arith, map, ◌==◌,
}
use harry.Base.Sorting.{upto, upto-append}
use harry.Message.{Rfpbuf, rh_xid}
use harry.Sibling.State.{Process}
use harry.Database.Decimal.{Text, print_int}
use harry.Database.Riak.{Riak}
use harry.Database.Checkpoint.{current_xid, ospf6_db_get}
use harry.Database.Keys.{ospf6_db_list_keys, db_list_keys}
use harry.Database.Sorted.{qsort-current}
use harry.Restart.Loops.{
  all_stored, received_xid-stored, process_own-upto, received_xid-queued, received_xid-append,
  from_leader-upto,
}
use harry.Restart.Replay.{
  Received, received_xid, ospf6_replica_get_leader_id, receive_queued, left_restart,
  ospf6_restart_start,
}

calls-upto :
    {S : Type 0} (db : Riak S) (s : S) (own leader : ℕ) (own_text text : ℕ → Text) (a k n m : ℕ)
    (msgs : List Rfpbuf)
    → map rh_xid msgs ≡ upto (a + k + 1 + n) (suc m)
    → map received_xid (
        all_stored db s own own_text (upto a (suc k))
        ++ (all_stored db s leader text (upto (a + k + 1) n) ++ map receive_queued msgs))
      ≡ upto a (suc k + n + suc m)
calls-upto db s own leader own_text text a k n m msgs queue =
    received_xid-append (all_stored db s own own_text (upto a (suc k)))
      (all_stored db s leader text (upto (a + k + 1) n) ++ map receive_queued msgs)
    ∙ ap₂ ◌++◌ (received_xid-stored db s own own_text (upto a (suc k))) (
        received_xid-append (all_stored db s leader text (upto (a + k + 1) n))
          (map receive_queued msgs)
        ∙ ap₂ ◌++◌ (received_xid-stored db s leader text (upto (a + k + 1) n))
            (received_xid-queued msgs ∙ queue)
        ∙ upto-append (a + k + 1) n (suc m) (a + k + 1 + n) (n + suc m) refl refl)
    ∙ upto-append a (suc k) (n + suc m) (a + k + 1) (suc k + n + suc m) (omega arith) (omega arith)

module _ {S : Type 0} (db : Riak S) (junk : ℕ × ℕ) (s : S) (p : Process) where
  -- A restarted replica with messages in its restart queue, where `num_msgs` is what the variable
  -- restart_msg_queue_num_msgs happens to hold, which no statement assigns. Its own bucket lists
  -- the keys from `a` on, one at least, in whatever order, and "cur_xid" after them, which is
  -- compared as a number no less than any of them; a leader is known, and the query of the `n` next
  -- keys in its bucket returns them in whatever order; all these keys have texts; and the queue has
  -- the messages after these, one at least, none with a number beyond 32 bits. Then
  -- ospf6_restart_start ends in normal mode. If the variable happens not to be 0, it has handed
  -- each number from the first own key to the last message of the queue to ospf6_receive, once and
  -- in order; if it happens to be 0, only the numbers of the own keys, and the leader's keys and
  -- the whole queue are skipped.
  pub ospf6_restart_start-upto :
      (a k n m leader num_msgs junk_key : ℕ) (own_keys keys : List ℕ) (own_text text : ℕ → Text)
      → num_msgs ≢ 0
      → db.riack_list_keys s (print_int p.own_replica.id)
        ≡ some (map print_int own_keys ++ current_xid ∷ [])
      → Perm own_keys (upto a (suc k))
      → a + k ≤ junk.1
      → ((x : ℕ) → a ≤ x → x < a + suc k → ospf6_db_get db s x p.own_replica.id ≡ some (own_text x))
      → ospf6_replica_get_leader_id p ≡ some leader
      → db.riack_2i_query_range s (print_int leader) (print_int (a + k + 1)) (print_int (a + k + n))
        ≡ some (map print_int keys)
      → Perm keys (upto (a + k + 1) n)
      → ((x : ℕ) → a + k < x → x ≤ a + k + n → ospf6_db_get db s x leader ≡ some (text x))
      → map rh_xid p.restart_msg_queue ≡ upto (a + k + 1 + n) (suc m)
      → a + k + 1 + n + suc m ≤ 4294967296
      → ((calls : List Received) × ((ospf6_restart_start db junk s p junk_key num_msgs
              ≡ some (left_restart p, calls))
            × (map received_xid calls ≡ upto a (suc k + n + suc m))))
        × ((own_calls : List Received) × ((ospf6_restart_start db junk s p junk_key 0
                ≡ some (left_restart p, own_calls))
              × (map received_xid own_calls ≡ upto a (suc k))))
  unfolding ospf6_restart_start ospf6_db_list_keys db_list_keys
  ospf6_restart_start-upto a k n m leader num_msgs junk_key own_keys keys own_text text some_msgs
        listed own_perm above own_texts known queried perm texts queue small =
      (
        (
          calls,
          (
            rw
                (
                  listed,
                  qsort-current junk own_keys a (suc k) own_perm (omega arith) (omega arith),
                  process_own-upto db s p.own_replica.id own_text a k (a + k) junk_key (omega arith)
                      refl own_texts,
                  known,
                  nonzero,
                  from_leader-upto db junk s p leader text (a + k) n m keys queried perm texts queue
                      small,
                )
                refl,
            calls-upto db s p.own_replica.id leader own_text text a k n m p.restart_msg_queue queue,
          ),
        ),
        (
          own_calls ++ [],
          (
            rw
                (
                  listed,
                  qsort-current junk own_keys a (suc k) own_perm (omega arith) (omega arith),
                  process_own-upto db s p.own_replica.id own_text a k (a + k) junk_key (omega arith)
                      refl own_texts,
                  known,
                )
                refl,
            ap (map received_xid) (append-nil own_calls)
                ∙ received_xid-stored db s p.own_replica.id own_text (upto a (suc k)),
          ),
        ),
      )
    where
      calls : List Received
      calls =
          all_stored db s p.own_replica.id own_text (upto a (suc k))
          ++ (all_stored db s leader text (upto (a + k + 1) n)
              ++ map receive_queued p.restart_msg_queue)

      own_calls : List Received
      own_calls = all_stored db s p.own_replica.id own_text (upto a (suc k))

      nonzero : (num_msgs == 0) ≡ false
      nonzero = ground arith
