-- ===== src/Restart/Slowness.antt =====
-- When a replica finds itself too slow (ospf6-sibling/ospf6_replica.c).
use Prim.Native.Nat.{◌≤◌}
use harry.Base.{
  ℕ, ◌+◌, ◌<◌, ◌≡◌, ◌↔◌, refl, Bool, true, not, ◌&&◌, List, [], ◌∷◌, arith, ltb, ◌==◌, count_if,
  All, lt_or_le, inl, inr, lt→ltb, le→ltb,
}
use harry.Sibling.State.{Sibling, Process}
use harry.Database.Riak.{Riak}
use harry.Database.Checkpoint.{ospf6_db_get_current_xid}
use harry.Restart.Replay.{exceeds_threshold, is_ahead, slower, ospf6_replica_check_for_slowness}

exceeds_threshold-lt :
    (other mine : ℕ)
    → other < 2147483648
    → mine < 2147483648
    → exceeds_threshold other mine ≡ ltb (mine + 5) other
unfolding exceeds_threshold
exceeds_threshold-lt other mine h k = elim (lt_or_le (mine + 5) other) [
  | inl l ↦ rw (lt→ltb (mine + 5) other l) (ground arith)
  | inr l ↦ rw (le→ltb (mine + 5) other l) (ground arith)
]

-- Another replica whose number is more than five beyond.
abbrev pub beyond : ℕ → ℕ → (ℕ → ℕ) → Sibling → Bool
beyond my_id mine xid_of s = not (s.id == my_id) && ltb (mine + 5) (xid_of s.id)

slower-beyond :
    (my_id : ℕ) (xid_of : ℕ → ℕ) (ss : List Sibling)
    → xid_of my_id < 2147483648
    → All (λ s. xid_of s.id < 2147483648) ss
    → count_if (is_ahead my_id xid_of) ss ≡ count_if (beyond my_id (xid_of my_id) xid_of) ss
unfolding is_ahead
slower-beyond my_id xid_of [] h k = refl
slower-beyond my_id xid_of (s ∷ ss) h k =
    rw
      (exceeds_threshold-lt (xid_of s.id) (xid_of my_id) k.0 h, slower-beyond my_id xid_of ss h k.1)
      refl

module _ {S : Type 0} (db : Riak S) (s : S) (p : Process) where
  -- If the current transaction ids of the replica and of all others are below 2^31, then the replica
  -- starts to catch up exactly when at least five others are more than five transactions ahead.
  pub ospf6_replica_check_for_slowness_iff :
      ospf6_db_get_current_xid db s p.own_replica.id < 2147483648
      → All (λ r. ospf6_db_get_current_xid db s r.id < 2147483648) p.replicas
      → ((ospf6_replica_check_for_slowness db s p).1 ≡ true) ↔ (
          5
          ≤ count_if
              (beyond p.own_replica.id
                (ospf6_db_get_current_xid db s p.own_replica.id)
                (ospf6_db_get_current_xid db s))
              p.replicas)
  unfolding ospf6_replica_check_for_slowness slower
  ospf6_replica_check_for_slowness_iff h k =
      let same = slower-beyond p.own_replica.id (ospf6_db_get_current_xid db s) p.replicas h k in
      rw same (ground arith)
