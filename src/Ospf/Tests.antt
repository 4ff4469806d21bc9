-- ===== src/Ospf/Tests.antt =====
-- The theorems on the OSPFv3 code at concrete LSAs, neighbors and voters.
use Prim.Native.Nat.{min, ◌≤◌}
use mathlib.Core.List.{Mem}
use harry.Base.{
  ℕ, ◌+◌, ◌≡◌, ◌≢◌, ◌↔◌, ◌⊎◌, refl, true, false, List, [], ◌∷◌, none, some, arith, All, Holds,
  ◌>>=◌,
}
use harry.Ospf.Lsa.{recency, first_recent, age_at, ospf6_lsa_age_update_to_send}
use harry.Ospf.Lsdb.{
  Lsdb, Hook, ospf6_lsdb_create, lsdb_key, ospf6_lsdb_lookup, ospf6_lsdb_add, ospf6_lsdb_remove_all,
  ospf6_new_ls_seqnum,
}
use harry.Ospf.State.{Neighbor, NeighborState, rank, exchange, loading, if_dr, if_drother}
use harry.Ospf.Neighbor.{
  new_neighbor, ospf6_neighbor_lookup, handle, is_exchanged, is_loaded, is_mismatch, is_negotiated,
}
use harry.Ospf.Election.{
  Voter, may_be_bdr, may_be_dr, better_bdrouter, better_drouter, best_of, dr_election,
}
use harry.Ospf.Recent.{flip, recency-flip_iff, age_update_to_send-min}
use harry.Ospf.Stored.{Inv, ospf6_lsdb_add-Inv, ospf6_lsdb_remove_all-empty}
use harry.Ospf.Seqnum.{ospf6_new_ls_seqnum-recent_iff}
use harry.Message.{Rfpbuf, htons, htonl}
use harry.Message.Bytes.{all_bytes-IsBytes}
use harry.Database.Json.{records, offsets}
use harry.Database.Table.{Table, table_riak}
use harry.Database.Decimal.{starts_digit}
use harry.Database.Checkpoint.{Ospf6, checkpoints, ospf6_db_get_current_xid}
use harry.Ospf.Hello.{Heard, sender, ospf6_hello_recv}
use harry.Ospf.Heard.{router_ids, ospf6_hello_recv-twoway}
use harry.Ospf.Total.{IsReady, IsPrepared, IsEarly, handle-none_iff}
use harry.Ospf.Ready.{history, history-IsReady}
use harry.Ospf.Protocol.{Move}
use harry.Ospf.Moves.{handle-Moves}
use harry.Ospf.Best.{
  IsSized, IsBest, backup_weight, designated_weight, best_of-better_bdrouter-IsBest,
  best_of-better_drouter-IsBest,
}
use harry.Ospf.Samples.{lsa, one_lsa, interface, create-Inv}
use harry.Ospf.Elected.{dr_election-zero, dr_election-alone}

-- The checksums differ, so that the two orders do not give opposite results.
recency-flip_iff_example :
    (recency 200 (lsa 1 7 6) (lsa 1 7 5) ≡ flip (recency 200 (lsa 1 7 5) (lsa 1 7 6)))
    ↔ (((lsa 1 7 5).seqnum ≢ (lsa 1 7 6).seqnum) ⊎ ((lsa 1 7 5).checksum ≡ (lsa 1 7 6).checksum))
recency-flip_iff_example = recency-flip_iff 200 (lsa 1 7 5) (lsa 1 7 6) (omega arith) (omega arith)

ospf6_lsdb_add-Inv_example :
    (after : Lsdb) × ((calls : List Hook) × ((ospf6_lsdb_add 200 (lsa 1 7 5) one_lsa
          ≡ some (after, calls))
        × (Inv after
            × ((ospf6_lsdb_lookup 8193 1 1 after ≡ some (lsa 1 7 5))
                × (ospf6_lsdb_lookup 8193 2 1 after ≡ ospf6_lsdb_lookup 8193 2 1 one_lsa)))))
unfolding lsdb_key
ospf6_lsdb_add-Inv_example =
    ospf6_lsdb_add-Inv 200 (lsa 1 7 5) one_lsa 8193 2 1 (omega arith)
      (record { ordered = (omega arith, tt); counted = refl }) (omega arith)

ospf6_lsdb_remove_all-empty_example :
    (after : Lsdb) × ((calls : List Hook) × ((ospf6_lsdb_remove_all one_lsa ≡ some (after, calls))
        × ((after.lsas ≡ []) × (after.count ≡ 0))))
ospf6_lsdb_remove_all-empty_example = ospf6_lsdb_remove_all-empty one_lsa refl

ospf6_new_ls_seqnum-recent_iff_example :
    (recency 200 (lsa 2 8 5) (lsa 2 7 5) ≡ first_recent) ↔ ((lsa 2 7 5).seqnum ≢ 2147483647)
unfolding ospf6_lsdb_lookup ospf6_new_ls_seqnum lsdb_key
ospf6_new_ls_seqnum-recent_iff_example =
    ospf6_new_ls_seqnum-recent_iff 200 (lsa 2 8 5) (lsa 2 7 5) one_lsa refl (omega arith) refl

-- A neighbor in the exchange, from which nothing is requested.
abbrev exchanging : Neighbor
exchanging = record (new_neighbor 9) { state = exchange }

handle-Moves_example :
    Holds
      (λ r.
        Move (interface 1) exchanging is_exchanged r.0.state
        ⊎ ((r.0.state ≡ exchange)
            × ((next : NeighborState) → ¬ Move (interface 1) exchanging is_exchanged next)))
      (handle 200 ospf6_lsdb_create (interface 1) is_exchanged exchanging)
handle-Moves_example = handle-Moves 200 ospf6_lsdb_create (interface 1) is_exchanged exchanging

-- A neighbor in loading, from which one LSA is still requested.
abbrev loading_one : Neighbor
loading_one = record (new_neighbor 9) { state = loading; request_list = one_lsa }

loading_one-IsReady : IsReady loading_one
unfolding new_neighbor
loading_one-IsReady = record {
  summary_ready = create-Inv;
  request_ready = record { ordered = (omega arith, tt); counted = refl };
  retrans_ready = create-Inv;
  dbdesc_ready = create-Inv;
}

loading_one-IsPrepared : IsPrepared loading_one
unfolding new_neighbor
loading_one-IsPrepared = record {
  lsreq_ready = create-Inv;
  lsupdate_ready = create-Inv;
  lsack_ready = create-Inv;
}

history-IsReady_example :
    Holds IsReady
      (history one_lsa (interface 1) ((200, is_mismatch) ∷ (201, is_negotiated) ∷ []) loading_one)
history-IsReady_example =
    history-IsReady one_lsa (interface 1) ((200, is_mismatch) ∷ (201, is_negotiated) ∷ [])
      loading_one tt (omega arith, tt) loading_one-IsReady

-- The history fails no assertion, and the LSA of the process is in the summary list after it.
summarised :
    (history one_lsa (interface 1) ((200, is_mismatch) ∷ (201, is_negotiated) ∷ []) loading_one
      >>= λ on. some on.summary_list.count)
    ≡ some 1
unfolding history handle new_neighbor lsdb_key
summarised = refl

handle-none_iff_example :
    (handle 200 ospf6_lsdb_create (interface 1) is_loaded loading_one ≡ none)
    ↔ IsEarly is_loaded loading_one
handle-none_iff_example =
    handle-none_iff 200 ospf6_lsdb_create (interface 1) is_loaded loading_one loading_one-IsReady
      loading_one-IsPrepared tt tt

abbrev voter : ℕ → ℕ → ℕ → ℕ → Voter
voter router_id priority drouter bdrouter = record {
  myself = false;
  twoway = true;
  router_id = router_id;
  priority = priority;
  drouter = drouter;
  bdrouter = bdrouter;
}

-- The voter 3 declares itself the designated router, and the voter 1 the backup.
abbrev voters : List Voter
voters = voter 1 1 3 1 ∷ voter 2 9 3 1 ∷ voter 3 1 3 1 ∷ []

voters-IsSized : All IsSized voters
voters-IsSized =
    ((omega arith, omega arith), ((omega arith, omega arith), ((omega arith, omega arith), tt)))

best_of-better_bdrouter-IsBest_example :
    IsBest may_be_bdr backup_weight voters (best_of better_bdrouter none voters)
best_of-better_bdrouter-IsBest_example = best_of-better_bdrouter-IsBest voters voters-IsSized

best_of-better_drouter-IsBest_example :
    IsBest may_be_dr designated_weight voters (best_of better_drouter none voters)
best_of-better_drouter-IsBest_example = best_of-better_drouter-IsBest voters voters-IsSized

dr_election-zero_example : (dr_election 9 (interface 0)).1.0 ≡ if_drother
dr_election-zero_example = dr_election-zero 9 (interface 0) refl

dr_election-alone_example :
    ((dr_election 9 (interface 1)).1.0 ≡ if_dr)
    × (((dr_election 9 (interface 1)).0.drouter ≡ 9)
        × ((dr_election 9 (interface 1)).0.bdrouter ≡ 0))
dr_election-alone_example = dr_election-alone 9 (interface 1) refl (omega arith) (omega arith)

age_update_to_send-min_example :
    (ospf6_lsa_age_update_to_send 200 (lsa 1 7 5) 3550).age
    ≡ min (age_at 200 (lsa 1 7 5) + 3550) 3600
age_update_to_send-min_example = age_update_to_send-min 200 (lsa 1 7 5) 3550 (omega arith)

-- A hello packet that lists the router id 10.0.0.2, from 10.0.0.1.
abbrev hello : Rfpbuf
hello =
    3 ∷ 1 ∷ 0 ∷ 40 ∷ 10 ∷ 0 ∷ 0 ∷ 1 ∷ 0 ∷ 0 ∷ 0 ∷ 0 ∷ 0 ∷ 0 ∷ 0 ∷ 0 ∷ 0 ∷ 0 ∷ 0 ∷ 5 ∷ 1 ∷ 0 ∷ 0 ∷ 19
    ∷ 0 ∷ 10 ∷ 0 ∷ 40 ∷ 10 ∷ 0 ∷ 0 ∷ 2 ∷ 10 ∷ 0 ∷ 0 ∷ 1 ∷ 10 ∷ 0 ∷ 0 ∷ 2 ∷ []

abbrev running : Ospf6
running = record { checkpoint_enabled = true; restart_mode = false; ready_to_checkpoint = false }

ospf6_hello_recv-twoway_example :
    (r : Heard Table) × ((ospf6_hello_recv table_riak [] running 4 167772162 10
          (interface 1)
          hello
          9
        ≡ some r)
      × ((ospf6_db_get_current_xid table_riak r.data_base 4 ≡ 9)
          × ((r.acked ≡ true)
              × ((on : Neighbor) × ((ospf6_neighbor_lookup (sender hello) r.interface.neighbor_list
                      ≡ some on)
                    × ((4 ≤ rank on.state) ↔ Mem 167772162 (router_ids hello)))))))
unfolding htons checkpoints
ospf6_hello_recv-twoway_example =
    ospf6_hello_recv-twoway table_riak (λ t b k d i. refl) (λ t b. unfold starts_digit in refl) []
      running 4 167772162 10 (interface 1) hello 9 (omega arith) (omega arith)
      (all_bytes-IsBytes hello refl) (omega arith) refl refl

-- The packet's list has the router.
listed : router_ids hello ≡ 167772162 ∷ []
unfolding records offsets htons htonl
listed = refl
