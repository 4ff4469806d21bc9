-- ===== src/Controller/Keeps.antt =====
-- The siblings' states under writes, votes and queued messages.
use harry.Base.{
  ℕ, zero, suc, ◌≡◌, refl, ap, ◌∙◌, List, [], ◌∷◌, ◌++◌, Option, none, some, Bool, true, false,
  ◌==◌, if◌then◌else◌, ◌⊎◌, inl, inr, map, arith, get_elem?, set, Holds, Holds-bind, Holds-map,
  ◌>>=◌, ltb,
}
use harry.Message.{Rfpbuf, rh_xid}
use harry.Controller.State.{
  SibRouterState, SibRouter, SibId, ospf6_sib, bgp_sib, Controller, get_sib, put_sib, emit, Output,
  is_disconnected, db_set_egress_xid,
}
use harry.Controller.Transition.{moved, state_transition, send_leader_elect}
use harry.Controller.Vote.{
  advance, accept_vote, record_leader_xid, store_xid, settle, vote_majority, first_msg,
  compare_msgs, exceeds_half, num_hosts, forward_all,
}
use harry.Controller.Packet.{
  append_msg_to_rcvd_queue, may_vote, queue_msg, synchronize, on_forward_ospf6, on_ack, name_leader,
}
use harry.Controller.Live.{get_sib-emit, get_sib-put_sib}

abbrev pub state_at : Controller → SibId → Option SibRouterState
state_at c j = get_sib c j >>= λ s. some s.state

abbrev picked : List SibRouter → ℕ → Option SibRouterState
picked ss i = get_elem? ss i >>= λ s. some s.state

picked-set_same :
    (ss : List SibRouter) (i j : ℕ) (s t : SibRouter)
    → get_elem? ss i ≡ some s
    → t.state ≡ s.state
    → picked (set ss i t) j ≡ picked ss j
picked-set_same [] i j s t e h = refl
picked-set_same (x ∷ ss) zero zero s t e h = ground arith
picked-set_same (x ∷ ss) zero (suc j) s t e h = refl
picked-set_same (x ∷ ss) (suc i) zero s t e h = refl
picked-set_same (x ∷ ss) (suc i) (suc j) s t e h = picked-set_same ss i j s t e h

picked-set_other :
    (ss : List SibRouter) (i j : ℕ) (t : SibRouter)
    → (j ≡ i) ⊎ (picked (set ss i t) j ≡ picked ss j)
picked-set_other [] i j t = inr refl
picked-set_other (x ∷ ss) zero zero t = inl refl
picked-set_other (x ∷ ss) zero (suc j) t = inr refl
picked-set_other (x ∷ ss) (suc i) zero t = inr refl
picked-set_other (x ∷ ss) (suc i) (suc j) t = elim (picked-set_other ss i j t) [
  | inl e ↦ inl (ap suc e)
  | inr e ↦ inr e
]

picked-advance : (ss : List SibRouter) (j : ℕ) → picked (map advance ss) j ≡ picked ss j
unfolding advance
picked-advance [] j = refl
picked-advance (x ∷ ss) zero = refl
picked-advance (x ∷ ss) (suc j) = picked-advance ss j

-- Every sibling keeps its state.
abbrev pub Keeps : Controller → Controller → Type 0
Keeps c c' = (j : SibId) → state_at c' j ≡ state_at c j

pub Keeps-refl : (c : Controller) → Keeps c c
Keeps-refl c j = refl

pub emit-Keeps : (c : Controller) (os : List Output) → Keeps c (emit c os)
emit-Keeps c os j = rw (get_sib-emit c j os) refl

pub put_sib-Keeps :
    (c : Controller) (id : SibId) (s t : SibRouter)
    → get_sib c id ≡ some s
    → t.state ≡ s.state
    → Keeps c (put_sib c id t)
unfolding get_sib put_sib
put_sib-Keeps c (ospf6_sib i) s t e h (ospf6_sib j) = picked-set_same c.ospf6_siblings i j s t e h
put_sib-Keeps c (ospf6_sib i) s t e h (bgp_sib j) = refl
put_sib-Keeps c (bgp_sib i) s t e h (ospf6_sib j) = refl
put_sib-Keeps c (bgp_sib i) s t e h (bgp_sib j) = picked-set_same c.bgp_siblings i j s t e h

put_sib_other :
    (c : Controller) (id j : SibId) (t : SibRouter)
    → (j ≡ id) ⊎ (state_at (put_sib c id t) j ≡ state_at c j)
unfolding get_sib put_sib
put_sib_other c (ospf6_sib i) (ospf6_sib j) t = elim (picked-set_other c.ospf6_siblings i j t) [
  | inl e ↦ inl (ap ospf6_sib e)
  | inr e ↦ inr e
]
put_sib_other c (ospf6_sib i) (bgp_sib j) t = inr refl
put_sib_other c (bgp_sib i) (ospf6_sib j) t = inr refl
put_sib_other c (bgp_sib i) (bgp_sib j) t = elim (picked-set_other c.bgp_siblings i j t) [
  | inl e ↦ inl (ap bgp_sib e)
  | inr e ↦ inr e
]

recount-Keeps : (c : Controller) (n : ℕ) → Keeps c (record c { n_ospf6_siblings_routing = n })
unfolding get_sib
recount-Keeps c n (ospf6_sib j) = refl
recount-Keeps c n (bgp_sib j) = refl

elect-Keeps : (b : Bool) (c : Controller) → Keeps c (if b then send_leader_elect c else c)
unfolding send_leader_elect
elect-Keeps true c j = emit-Keeps c _ j
elect-Keeps false c j = refl

-- A transition keeps the states of all other siblings.
pub transition_other :
    (c : Controller) (id j : SibId) (sr : SibRouter) (new : SibRouterState)
    → (j ≡ id) ⊎ (state_at (state_transition c id sr new) j ≡ state_at c j)
unfolding state_transition
transition_other c id j sr new = elim (put_sib_other c id j (moved sr new)) [
  | inl e ↦ inl e
  | inr e ↦ inr (elect-Keeps _ _ j ∙ (recount-Keeps _ _ j ∙ e))
]

record_leader_xid-Keeps : (c : Controller) → Keeps c (record_leader_xid c)
unfolding record_leader_xid
record_leader_xid-Keeps c = stored (c.leader_sibling >>= get_sib c)
  where
    stored : (o : Option SibRouter) → Keeps c (store_xid o c)
    stored none j = unfold store_xid in refl
    stored (some l) j = unfold store_xid in by_state (is_disconnected l.state)
      where
        by_state :
            (b : Bool)
            → state_at (if b then c else emit c (db_set_egress_xid l.current_egress_xid ∷ [])) j
              ≡ state_at c j
        by_state true = refl
        by_state false = emit-Keeps c (db_set_egress_xid l.current_egress_xid ∷ []) j

advanced-Keeps :
    (c : Controller) (os : List Output)
    → Keeps c (record c { ospf6_siblings = map advance c.ospf6_siblings; out = os })
unfolding get_sib
advanced-Keeps c os (ospf6_sib j) = picked-advance c.ospf6_siblings j
advanced-Keeps c os (bgp_sib j) = refl

accept_vote-Keeps : (c : Controller) (a : Rfpbuf) → Keeps c (accept_vote c a)
unfolding accept_vote
accept_vote-Keeps c a j =
    record_leader_xid-Keeps _ j ∙ advanced-Keeps c (c.out ++ forward_all 0 a c.routers) j

vote_majority-Keeps : (c : Controller) → Holds (Keeps c) (vote_majority c)
unfolding vote_majority
vote_majority-Keeps c =
    Holds-bind (Keeps c) (first_msg c.ospf6_siblings) _ λ r e. decide (compare_msgs r.0 1 r.1)
  where
    decide : (r : Rfpbuf × ℕ) → Keeps c (settle c r)
    decide (a, n) = unfold settle in by_count (exceeds_half n (num_hosts c))
      where
        by_count : (b : Bool) → Keeps c (if b then accept_vote c a else c)
        by_count true = accept_vote-Keeps c a
        by_count false = Keeps-refl c

pub queue_msg-Keeps :
    (c : Controller) (id : SibId) (s : SibRouter) (msg : Rfpbuf)
    → get_sib c id ≡ some s
    → Holds (Keeps c) (queue_msg c id s msg)
unfolding queue_msg
queue_msg-Keeps c id s msg e =
    in_order (rh_xid msg == s.current_egress_xid) (may_vote queued)
      (ltb s.current_egress_xid (rh_xid msg))
  where
    queued : Controller
    queued = put_sib c id (append_msg_to_rcvd_queue s msg)

    kept : Keeps c queued
    kept =
        put_sib-Keeps c id s (append_msg_to_rcvd_queue s msg) e
          (unfold append_msg_to_rcvd_queue in refl)

    in_order :
        (now votes later : Bool)
        → Holds (Keeps c) (
            if now
            then (if votes then vote_majority queued else some queued)
            else if later
            then some queued
            else some c)
    in_order true true later =
        Holds-map (Keeps queued) (Keeps c) (vote_majority queued) (λ c' k j. k j ∙ kept j)
          (vote_majority-Keeps queued)
    in_order true false later = kept
    in_order false votes true = kept
    in_order false votes false = Keeps-refl c

pub state-synchronize : (c : Controller) (s : SibRouter) → (synchronize c s).state ≡ s.state
unfolding synchronize
state-synchronize c s = ground arith

pub on_forward_ospf6-Keeps :
    (c : Controller) (id : SibId) (s : SibRouter) (msg : Rfpbuf)
    → get_sib c id ≡ some s
    → Holds (Keeps c) (on_forward_ospf6 c id s msg)
unfolding on_forward_ospf6
on_forward_ospf6-Keeps c id s msg e =
    Holds-map (Keeps synced) (Keeps c) (queue_msg synced id (synchronize c s) msg)
      (λ c' k j. k j ∙ put_sib-Keeps c id s (synchronize c s) e (state-synchronize c s) j)
      (queue_msg-Keeps synced id (synchronize c s) msg (get_sib-put_sib c id s (synchronize c s) e))
  where
    synced : Controller
    synced = put_sib c id (synchronize c s)

pub on_ack-Keeps :
    (c : Controller) (id : SibId) (s : SibRouter) (xid : ℕ)
    → get_sib c id ≡ some s
    → Keeps c (on_ack c id s xid)
unfolding on_ack
on_ack-Keeps c id s xid e = expected (xid == s.current_ingress_xid)
  where
    expected :
        (b : Bool)
        → Keeps c (if b then put_sib c id (record s { current_ingress_ack_rcvd = true }) else c)
    expected true = put_sib-Keeps c id s (record s { current_ingress_ack_rcvd = true }) e refl
    expected false = Keeps-refl c

leader-Keeps : (c : Controller) (l : Option SibId) → Keeps c (record c { leader_sibling = l })
unfolding get_sib
leader-Keeps c l (ospf6_sib j) = refl
leader-Keeps c l (bgp_sib j) = refl

pub name_leader-Keeps :
    (b : Bool) (c : Controller) (id : SibId) (s : SibRouter)
    → get_sib c id ≡ some s
    → Holds (Keeps c) (name_leader b c id s)
unfolding name_leader
name_leader-Keeps true c id s e = λ j.
    leader-Keeps (put_sib c id (record s { is_leader = true })) (some id) j
    ∙ put_sib-Keeps c id s (record s { is_leader = true }) e refl j
name_leader-Keeps false c id s e =
    Holds-bind (Keeps c) c.leader_sibling _
      λ leader _. Holds-bind (Keeps c) (get_sib c leader) _ λ l _. unless (is_disconnected l.state)
  where
    unless :
        (b : Bool)
        → Holds (Keeps c) (if b then none else some (put_sib c id (record s { is_leader = false })))
    unless true = tt
    unless false = put_sib-Keeps c id s (record s { is_leader = false }) e refl
