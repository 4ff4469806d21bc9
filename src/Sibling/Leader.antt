-- ===== src/Sibling/Leader.antt =====
-- The leader after ospf6_leader_elect and after fill_id.
use harry.Base.{
  ℕ, zero, suc, ◌<◌, ◌≡◌, ◌≢◌, refl, sym, ap, ◌∙◌, List, [], ◌∷◌, some, Bool, true, false, ltb,
  if◌then◌else◌, ◌⊎◌, inl, inr, arith, Bool-cases, ==_iff, length, get_elem?,
}
use harry.Sibling.State.{
  Sibling, SiblingCtrlState, sc_lead_elect_start, sc_lead_elect_compl,
  sc_all_int_up_lead_elect_start, sc_ready_to_send_lead_elect_start, sc_ready_to_send, Process,
  Sisis,
}
use harry.Sibling.Election.{find_replica_from_addr}
use harry.Sibling.Ctrl.{
  first_completion, complete_from, lead_elect_compl, send_ids, store_election, elected,
  report_election, ospf6_leader_elect, ospf6_num_sibs, own_after_tie, note_sender, report_ids,
  fill_id, announced_id,
}
use harry.Sibling.Oldest.{known_id, yields, is_oldest, elect_loop-is_oldest}

own-first_completion :
    (p : Process) (s : SiblingCtrlState) → (first_completion p s).own_replica ≡ p.own_replica
unfolding first_completion
own-first_completion p s = ground arith

pub own-lead_elect_compl : (p : Process) → (lead_elect_compl p).own_replica ≡ p.own_replica
unfolding lead_elect_compl
own-lead_elect_compl p = from p.sc_state
  where
    from : (s : SiblingCtrlState) → (complete_from s p).own_replica ≡ p.own_replica
    from sc_lead_elect_start = unfold complete_from in own-first_completion p sc_lead_elect_compl
    from sc_all_int_up_lead_elect_start =
        unfold complete_from in own-first_completion p sc_ready_to_send
    from sc_ready_to_send_lead_elect_start = unfold complete_from in refl
    from _ = unfold complete_from in refl

own-report_election : (p : Process) → (report_election p).own_replica ≡ p.own_replica
unfolding report_election
own-report_election p = ground (arith, own-lead_elect_compl p)

own-report_ids : (p : Process) → (report_ids p).own_replica ≡ p.own_replica
unfolding report_ids
own-report_ids p = ground (arith, own-lead_elect_compl p)

elected-leader :
    (env : Sisis) (p : Process)
    → (elected env p).own_replica.leader ≡ (
        if p.debug_replica
        then is_oldest env p.own_replica p.replicas env.sibling_addrs
        else p.own_replica.leader)
unfolding elected store_election
elected-leader env p =
    ground (arith, elect_loop-is_oldest env p.own_replica env.sibling_addrs p.replicas true)

-- With all nine siblings in the routes, an election makes the replica the leader exactly when it is
-- the oldest by timestamps and known ids, provided that its debug messages are on; otherwise the
-- replica's role stays as it was.
pub ospf6_leader_elect-leader :
    (env : Sisis) (p : Process)
    → length env.sibling_addrs ≡ ospf6_num_sibs
    → (ospf6_leader_elect env p).own_replica.leader ≡ (
        if p.debug_replica
        then is_oldest env p.own_replica p.replicas env.sibling_addrs
        else p.own_replica.leader)
unfolding ospf6_leader_elect send_ids
ospf6_leader_elect-leader env p h =
    rw ((==_iff _ _).1 h)
      (ap (λ s. s.leader) (own-report_election (elected env p)) ∙ elected-leader env p)

is_oldest-get :
    (env : Sisis) (own : Sibling) (ss : List Sibling) (addrs : List ℕ) (i a : ℕ)
    → is_oldest env own ss addrs ≡ true
    → get_elem? addrs i ≡ some a
    → yields env own ss a ≡ true
is_oldest-get env own ss [] i a h e = cc
is_oldest-get env own ss (b ∷ addrs) zero a h e = ground arith
is_oldest-get env own ss (b ∷ addrs) (suc i) a h e =
    is_oldest-get env own ss addrs i a (ground arith) e

-- Two replicas at different addresses, each of which has an announced id of the other, if their
-- timestamps are the same.
pub record AreRivals (env : Sisis) (p q : Process) : Type 0 where
  pub p_listed : (i : ℕ) × (get_elem? env.sibling_addrs i ≡ some p.own_replica.sibling_addr)
  pub q_listed : (i : ℕ) × (get_elem? env.sibling_addrs i ≡ some q.own_replica.sibling_addr)
  pub apart : p.own_replica.sibling_addr ≢ q.own_replica.sibling_addr
  pub ordered :
      (env.timestamp p.own_replica.sibling_addr ≢ env.timestamp q.own_replica.sibling_addr)
      ⊎ ((p.own_replica.id ≢ q.own_replica.id)
          × (known_id q.own_replica.sibling_addr p.replicas ≡ some q.own_replica.id)
          × (known_id p.own_replica.sibling_addr q.replicas ≡ some p.own_replica.id))

yields-both :
    (env : Sisis) (p q : Process)
    → AreRivals env p q
    → yields env p.own_replica p.replicas q.own_replica.sibling_addr ≡ true
    → yields env q.own_replica q.replicas p.own_replica.sibling_addr ≡ true
    → ⊥
yields-both env p q r hp hq = elim r.ordered [
  | inl ts ↦ ground (arith, r.apart, ts)
  | inr ids ↦ ground (arith, r.apart, ids.0, ids.1, ids.2)
]

-- With all nine siblings in the routes and debug messages on, two replicas at different listed
-- addresses, which differ in their timestamps or else in their ids and know the id of the other, do
-- not both come out of their elections as leaders.
pub ospf6_leader_elect_unique :
    (env : Sisis) (p q : Process)
    → length env.sibling_addrs ≡ ospf6_num_sibs
    → p.debug_replica ≡ true
    → q.debug_replica ≡ true
    → AreRivals env p q
    → (ospf6_leader_elect env p).own_replica.leader ≡ true
    → (ospf6_leader_elect env q).own_replica.leader ≡ false
ospf6_leader_elect_unique env p q n dp dq r hp =
    elim (Bool-cases (is_oldest env q.own_replica q.replicas env.sibling_addrs)) [
      | inl lead ↦ absurd (
          yields-both env p q r
            (is_oldest-get env p.own_replica p.replicas env.sibling_addrs r.q_listed.0 _ oldest_p
              r.q_listed.1)
            (is_oldest-get env q.own_replica q.replicas env.sibling_addrs r.p_listed.0 _ lead
              r.p_listed.1))
      | inr follow ↦ ospf6_leader_elect-leader env q n ∙ rw dq follow
    ]
  where
    oldest_p : is_oldest env p.own_replica p.replicas env.sibling_addrs ≡ true
    oldest_p = rw dp at (sym (ospf6_leader_elect-leader env p n) ∙ hp)

noted :
    (p : Process) (addr : ℕ) (leads : Bool) (id : ℕ) (s : Sibling)
    → find_replica_from_addr addr p.replicas ≡ some s
    → (note_sender (find_replica_from_addr addr p.replicas) p addr leads id).own_replica
      ≡ own_after_tie p.own_replica leads id
unfolding note_sender
noted p addr leads id s e = rw (e, note_sender)

own_after_fill :
    (p : Process) (addr : ℕ) (leads : Bool) (id : ℕ) (s : Sibling)
    → find_replica_from_addr addr p.replicas ≡ some s
    → (fill_id p addr leads id).own_replica ≡ own_after_tie p.own_replica leads id
unfolding fill_id
own_after_fill p addr leads id s e =
    own-report_ids (note_sender (find_replica_from_addr addr p.replicas) p addr leads id)
    ∙ noted p addr leads id s e

-- What becomes of a leader that hears of another one: the smaller id stays.
fill_id-leader :
    (p : Process) (addr id : ℕ) (s : Sibling)
    → find_replica_from_addr addr p.replicas ≡ some s
    → p.own_replica.leader ≡ true
    → (fill_id p addr true id).own_replica.leader ≡ ltb p.own_replica.id id
fill_id-leader p addr id s e h =
    ap (λ t. t.leader) (own_after_fill p addr true id s e) ∙ (unfold own_after_tie in rw h)

-- Two leaders with different 16-bit ids that know and hear of one another: the one with the smaller
-- id stays the leader, and the other does not.
pub fill_id-tie :
    (p q : Process) (s t : Sibling)
    → find_replica_from_addr q.own_replica.sibling_addr p.replicas ≡ some s
    → find_replica_from_addr p.own_replica.sibling_addr q.replicas ≡ some t
    → p.own_replica.leader ≡ true
    → q.own_replica.leader ≡ true
    → p.own_replica.id < q.own_replica.id
    → q.own_replica.id < 65536
    → let p' = fill_id p q.own_replica.sibling_addr true (announced_id q.own_replica) in
      let q' = fill_id q p.own_replica.sibling_addr true (announced_id p.own_replica) in
      (p'.own_replica.leader ≡ true) × (q'.own_replica.leader ≡ false)
unfolding announced_id
fill_id-tie p q s t ep eq lp lq h k =
    (fill_id-leader p _ _ s ep lp ∙ ground arith, fill_id-leader q _ _ t eq lq ∙ ground arith)

-- Two leaders with equal 16-bit ids that know and hear of one another both give the role up.
pub fill_id-tie_equal :
    (p q : Process) (s t : Sibling)
    → find_replica_from_addr q.own_replica.sibling_addr p.replicas ≡ some s
    → find_replica_from_addr p.own_replica.sibling_addr q.replicas ≡ some t
    → p.own_replica.leader ≡ true
    → q.own_replica.leader ≡ true
    → p.own_replica.id ≡ q.own_replica.id
    → q.own_replica.id < 65536
    → let p' = fill_id p q.own_replica.sibling_addr true (announced_id q.own_replica) in
      let q' = fill_id q p.own_replica.sibling_addr true (announced_id p.own_replica) in
      (p'.own_replica.leader ≡ false) × (q'.own_replica.leader ≡ false)
unfolding announced_id
fill_id-tie_equal p q s t ep eq lp lq h k =
    (fill_id-leader p _ _ s ep lp ∙ ground arith, fill_id-leader q _ _ t eq lq ∙ ground arith)
