-- ===== src/Restart/Catchup.antt =====
-- What a replica that catches up hands to ospf6_receive (ospf6-sibling/ospf6_restart.c).
use Prim.Native.Nat.{◌≤◌}
use mathlib.Core.List.{Perm}
use harry.Base.{
  ℕ, zero, suc, ◌+◌, ◌<◌, ◌≡◌, refl, sym, ap₂, ◌∙◌, List, [], ◌∷◌, ◌++◌, some, arith, map, u32,
  lt→ltb, le→ltb, cons-head, cons-tail,
}
use harry.Base.Sorting.{upto}
use harry.Message.{Rfpbuf, rh_xid}
use harry.Sibling.State.{Process}
use harry.Database.Decimal.{Text, print_int}
use harry.Database.Riak.{Riak}
use harry.Database.Checkpoint.{ospf6_db_get, ospf6_db_get_current_xid}
use harry.Database.Keys.{ospf6_db_last_key}
use harry.Database.Sorted.{ospf6_db_range_keys-upto}
use harry.Restart.Loops.{
  all_stored, received_xid-stored, process_keys-upto, received_xid-append, first_xid,
}
use harry.Restart.Replay.{
  Received, received_xid, ospf6_replica_get_leader_id, receive_queued, left_restart, queued_from,
  ospf6_catchup_start,
}

rh_xid-below :
    (leader_xid : ℕ) (msg : Rfpbuf) (msgs : List Rfpbuf)
    → rh_xid msg < leader_xid
    → queued_from leader_xid (msg ∷ msgs) ≡ queued_from leader_xid msgs
unfolding queued_from
rh_xid-below leader_xid msg msgs h = rw (lt→ltb (rh_xid msg) leader_xid h) refl

rh_xid-from :
    (leader_xid : ℕ) (msg : Rfpbuf) (msgs : List Rfpbuf)
    → leader_xid ≤ rh_xid msg
    → queued_from leader_xid (msg ∷ msgs) ≡ receive_queued msg ∷ queued_from leader_xid msgs
unfolding queued_from
rh_xid-from leader_xid msg msgs h = rw (le→ltb (rh_xid msg) leader_xid h) refl

-- The messages of a queue in order, from a number on that is in it.
queued_from-all :
    (leader_xid a n : ℕ) (msgs : List Rfpbuf)
    → leader_xid ≤ a
    → map rh_xid msgs ≡ upto a n
    → map received_xid (queued_from leader_xid msgs) ≡ upto a n
unfolding received_xid receive_queued
queued_from-all leader_xid a zero [] l e = unfold queued_from in refl
queued_from-all leader_xid a zero (m ∷ ms) l e = cc
queued_from-all leader_xid a (suc n) [] l e = cc
queued_from-all leader_xid a (suc n) (m ∷ ms) l e =
    let same = cons-head e in
    rw (rh_xid-from leader_xid m ms (omega (arith, same, l)))
      (ap₂ ◌∷◌ same (queued_from-all leader_xid (a + 1) n ms (omega arith) (cons-tail e)))

queued_from-upto :
    (a j m n b : ℕ) (msgs : List Rfpbuf)
    → b ≡ a + j
    → n ≡ j + m
    → map rh_xid msgs ≡ upto a n
    → map received_xid (queued_from b msgs) ≡ upto b m
queued_from-upto a zero m n b msgs e f q =
    queued_from-all b a n msgs (omega (arith, e)) q ∙ ap₂ upto (omega (arith, e)) (omega (arith, f))
queued_from-upto a (suc j) m zero b msgs e f q = ground (arith, f)
queued_from-upto a (suc j) m (suc n) b [] e f q = cc
queued_from-upto a (suc j) m (suc n) b (x ∷ msgs) e f q =
    rw (rh_xid-below b x msgs (omega (arith, cons-head q, e)))
      (queued_from-upto (a + 1) j m n b msgs (omega (arith, e)) (omega (arith, f)) (cons-tail q))

module _ {S : Type 0} (db : Riak S) (junk : ℕ × ℕ) (s : S) (p : Process) where
  -- A replica that catches up with a leader, which is known. The replica's last key is `last`, the
  -- leader's current transaction id is `n` numbers ahead, one at least, the query of these keys in
  -- the leader's bucket returns them in whatever order and all have texts, and the numbers in the
  -- queue start no later than with the leader's current one and go on to `m` numbers after it, none
  -- beyond 32 bits. Then ospf6_catchup_start ends in normal mode, and has handed the numbers after
  -- the last key up to the leader's to ospf6_receive, and then those of the queue from the leader's
  -- number on, which is so received twice.
  pub ospf6_catchup_start-upto :
      (last n a j m leader : ℕ) (keys : List ℕ) (text : ℕ → Text)
      → 1 ≤ n
      → ospf6_db_last_key db junk s p.own_replica.id ≡ some last
      → ospf6_replica_get_leader_id p ≡ some leader
      → ospf6_db_get_current_xid db s leader ≡ last + n
      → db.riack_2i_query_range s (print_int leader) (print_int (last + 1)) (print_int (last + n))
        ≡ some (map print_int keys)
      → Perm keys (upto (last + 1) n)
      → ((x : ℕ) → last < x → x ≤ last + n → ospf6_db_get db s x leader ≡ some (text x))
      → map rh_xid p.restart_msg_queue ≡ upto a (suc (j + m))
      → a + j ≡ last + n
      → last + n + suc m ≤ 4294967296
      → (calls : List Received) × ((ospf6_catchup_start db junk s p ≡ some (left_restart p, calls))
          × (map received_xid calls ≡ upto (last + 1) n ++ upto (last + n) (suc m)))
  unfolding ospf6_catchup_start
  ospf6_catchup_start-upto last n a j m leader keys text ahead own_last known current queried perm
        texts queue meets small =
      (
        all_stored db s leader text (upto (last + 1) n)
            ++ queued_from (last + n) p.restart_msg_queue,
        (
          rw
              (
                own_last,
                first_xid p a (j + m) queue,
                known,
                current,
                start,
                ospf6_db_range_keys-upto db junk s leader (last + 1) (last + n) keys (last + 1) n
                    queried perm (omega arith),
                process_keys-upto db s leader text (last + 1) n (omega arith)
                    (λ x l r. texts x (omega arith) (omega arith)),
              )
              refl,
          received_xid-append (all_stored db s leader text (upto (last + 1) n))
                (queued_from (last + n) p.restart_msg_queue)
              ∙ ap₂ ◌++◌ (received_xid-stored db s leader text (upto (last + 1) n)) (
                  queued_from-upto a j (suc m) (suc (j + m)) (last + n) p.restart_msg_queue
                    (sym meets) (omega arith) queue),
        ),
      )
    where
      start : u32 (last + 1) ≡ last + 1
      start = omega arith
