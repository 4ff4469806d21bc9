-- ===== src/Restart/Replay.antt =====
-- ospf6-sibling/ospf6_restart.c: process_restarted_msg, ospf6_restart_start and ospf6_catchup_start;
-- and ospf6_replica_get_leader_id and ospf6_replica_check_for_slowness of
-- ospf6-sibling/ospf6_replica.c. The result of a thread is the process and what the thread hands to
-- ospf6_receive, in order. The data base is read in one state: while a thread reads a bucket of its
-- own, the replica does not checkpoint yet.
use harry.Base.{
  ℕ, ◌+◌, ◌-◌, ◌*◌, Bool, true, false, not, ◌&&◌, List, [], ◌∷◌, ◌++◌, Option, none, some, ltb, leb,
  ◌==◌, if◌then◌else◌, map, u32, length, count_if, ◌>>=◌,
}
use harry.Message.{Rfpbuf, rh_xid, memcmp_eq}
use harry.Sibling.State.{Sibling, Process}
use harry.Sibling.Ctrl.{ospf6_num_sibs}
use harry.Sibling.Client.{sibling_ctrl_first_xid_rcvd}
use harry.Database.Decimal.{Text, strtol}
use harry.Database.Riak.{Riak}
use harry.Database.Checkpoint.{current_xid, ospf6_db_get, ospf6_db_get_current_xid}
use harry.Database.Keys.{ospf6_db_list_keys, ospf6_db_range_keys, ospf6_db_last_key}

-- A call of ospf6_receive: with the packet of a text in the bucket of a replica, or with a message
-- of the restart queue; both with the transaction id.
pub data Received : Type 0 where
  stored : ℕ → ℕ → Text → Received
  queued : ℕ → Rfpbuf → Received

unfoldable pub received_xid : Received → ℕ
received_xid (stored bid xid text) = xid
received_xid (queued xid msg) = xid

-- ospf6_replica_get_leader_id; `none` is the exit of the process.
unfoldable pub leader_id_of : List Sibling → Option ℕ
leader_id_of [] = none
leader_id_of (s ∷ ss) = if s.leader then some s.id else leader_id_of ss

unfoldable pub ospf6_replica_get_leader_id : Process → Option ℕ
unfolding leader_id_of
ospf6_replica_get_leader_id p = leader_id_of p.replicas

-- strncmp(key, CURRENT_XID, strlen(CURRENT_XID)) == 0.
unfoldable pub is_current : Text → Bool
unfolding memcmp_eq
is_current key = leb (length current_xid) (length key) && memcmp_eq current_xid key

module _ {S : Type 0} (db : Riak S) where
  -- A missing text is NULL, which the parser then reads.
  unfoldable pub process_restarted_msg : S → ℕ → ℕ → Option Received
  unfolding ospf6_db_get
  process_restarted_msg s bid xid = ospf6_db_get db s xid bid >>= λ text. some (stored bid xid text)

  -- The loop over the keys of the leader.
  unfoldable pub process_keys : S → ℕ → List Text → Option (List Received)
  unfolding process_restarted_msg
  process_keys s bid [] = some []
  process_keys s bid (k ∷ ks) = process_restarted_msg s bid (strtol k) >>= λ one.
      process_keys s bid ks >>= λ more. some (one ∷ more)

  -- The loop over the keys of the replica itself, with the last key that it processes.
  unfoldable pub process_own : S → ℕ → List Text → ℕ → Option (List Received × ℕ)
  unfolding process_restarted_msg
  process_own s bid [] last_key = some ([], last_key)
  process_own s bid (k ∷ ks) last_key = elim (is_current k) [
    | true ↦ process_own s bid ks last_key
    | false ↦ process_restarted_msg s bid (strtol k) >>= λ one.
        process_own s bid ks (strtol k) >>= λ more. some (one ∷ more.0, more.1)
  ]

unfoldable pub receive_queued : Rfpbuf → Received
receive_queued msg = queued (rh_xid msg) msg

unfoldable pub left_restart : Process → Process
left_restart p = record p { restart_mode = false }

-- The loop over the restart queue in ospf6_catchup_start.
unfoldable pub queued_from : ℕ → List Rfpbuf → List Received
unfolding receive_queued
queued_from leader_xid [] = []
queued_from leader_xid (msg ∷ msgs) =
    if not (ltb (rh_xid msg) leader_xid)
    then receive_queued msg ∷ queued_from leader_xid msgs
    else queued_from leader_xid msgs

module _ {S : Type 0} (db : Riak S) (junk : ℕ × ℕ) where
  -- What ospf6_restart_start does after the own keys if there are messages in the restart queue.
  unfoldable pub from_leader : S → Process → ℕ → ℕ → Option (List Received)
  unfolding process_keys receive_queued
  from_leader s p last_key leader_id = sibling_ctrl_first_xid_rcvd p >>= λ first_xid.
      process_keys db s leader_id (
        ospf6_db_range_keys db junk s leader_id (u32 (last_key + 1)) (u32 (first_xid + 4294967295)))
      >>= λ keys. some (keys ++ map receive_queued p.restart_msg_queue)

  -- `last_key_to_process` and `restart_msg_queue_num_msgs` are not initialised: the first is
  -- assigned only by a key, and the second by a statement that is commented out.
  unfoldable pub ospf6_restart_start : S → Process → ℕ → ℕ → Option (Process × List Received)
  unfolding process_own from_leader left_restart ospf6_replica_get_leader_id
  ospf6_restart_start s p last_key_to_process restart_msg_queue_num_msgs =
      process_own db s p.own_replica.id (ospf6_db_list_keys db junk s p.own_replica.id)
        last_key_to_process
      >>= λ own. ospf6_replica_get_leader_id p >>= λ leader_id.
          (if restart_msg_queue_num_msgs == 0 then some [] else from_leader s p own.1 leader_id)
          >>= λ more. some (left_restart p, own.0 ++ more)

  unfoldable pub ospf6_catchup_start : S → Process → Option (Process × List Received)
  unfolding process_keys queued_from left_restart ospf6_replica_get_leader_id
  ospf6_catchup_start s p = ospf6_db_last_key db junk s p.own_replica.id >>= λ last_key.
      sibling_ctrl_first_xid_rcvd p >>= λ first_xid. ospf6_replica_get_leader_id p >>= λ leader_id.
      process_keys db s leader_id (
        ospf6_db_range_keys db junk s leader_id (u32 (last_key + 1))
          (ospf6_db_get_current_xid db s leader_id))
      >>= λ keys. some (
        left_restart p,
        keys ++ queued_from (ospf6_db_get_current_xid db s leader_id) p.restart_msg_queue,
      )

-- Whether the difference of two numbers, as an `int`, is more than the threshold of 5.
unfoldable pub exceeds_threshold : ℕ → ℕ → Bool
exceeds_threshold other mine =
    let diff = u32 (other + (4294967296 - u32 mine)) in ltb 5 diff && ltb diff 2147483648

unfoldable pub is_ahead : ℕ → (ℕ → ℕ) → Sibling → Bool
unfolding exceeds_threshold
is_ahead my_id xid_of s = not (s.id == my_id) && exceeds_threshold (xid_of s.id) (xid_of my_id)

module _ {S : Type 0} (db : Riak S) where
  -- `slower` in ospf6_replica_check_for_slowness.
  unfoldable pub slower : S → Process → ℕ
  unfolding is_ahead
  slower s p = count_if (is_ahead p.own_replica.id (ospf6_db_get_current_xid db s)) p.replicas

  -- ospf6_replica_check_for_slowness: the process, and whether it starts to catch up.
  unfoldable pub ospf6_replica_check_for_slowness : S → Process → Process × Bool
  unfolding slower
  ospf6_replica_check_for_slowness s p =
      if ltb ospf6_num_sibs (2 * slower s p)
      then (record p { restart_mode = true }, true)
      else (p, false)
