-- ===== src/Controller/Sequence.antt =====
-- Transaction ids across the votes of controller/sib_router.c.
use harry.Base.{
  ℕ, ◌+◌, ◌≡◌, refl, List, [], ◌∷◌, ◌++◌, Option, none, some, true, inl, inr, arith, map, All,
  All-map, Bool-cases, Holds, Holds-bind, ◌>>=◌, tail, u32,
}
use harry.Message.{Rfpbuf, rh_xid}
use harry.Message.Laws.{eq_of_rfpbuf_equal}
use harry.Controller.State.{SibRouter, Controller, get_sib}
use harry.Controller.Vote.{
  advance, accept_vote, record_leader_xid, store_xid, settle, vote_majority, first_msg,
  compare_msgs, exceeds_half, num_hosts, forward_all,
}
use harry.Controller.Agreement.{offers, queue_cases}

-- The queue holds the messages numbered from `x` on, modulo 2^32.
abbrev pub InOrder : ℕ → List Rfpbuf → Type 0
InOrder x [] = Unit
InOrder x (m ∷ q) = (rh_xid m ≡ x) × InOrder (u32 (x + 1)) q

abbrev pub IsAligned : SibRouter → Type 0
IsAligned s = InOrder s.current_egress_xid s.msgs_rcvd_queue

abbrev pub AllAligned : Controller → Type 0
AllAligned c = All IsAligned c.ospf6_siblings

-- The number of the next message behind a queue that begins with `x`.
abbrev pub next_xid : ℕ → List Rfpbuf → ℕ
next_xid x [] = x
next_xid x (m ∷ q) = next_xid (u32 (x + 1)) q

InOrder-tail : (x : ℕ) (q : List Rfpbuf) → InOrder x q → InOrder (u32 (x + 1)) (tail q)
InOrder-tail x [] h = tt
InOrder-tail x (m ∷ q) h = h.1

advance-IsAligned : (s : SibRouter) → IsAligned s → IsAligned (advance s)
unfolding advance
advance-IsAligned s h = InOrder-tail s.current_egress_xid s.msgs_rcvd_queue h

ospf6-record_leader_xid : (c : Controller) → (record_leader_xid c).ospf6_siblings ≡ c.ospf6_siblings
unfolding record_leader_xid
ospf6-record_leader_xid c = stored (c.leader_sibling >>= get_sib c)
  where
    stored : (o : Option SibRouter) → (store_xid o c).ospf6_siblings ≡ c.ospf6_siblings
    stored none = refl
    stored (some l) = ground arith

-- An accepted message takes the front of every queue and moves every sibling to its next number.
pub ospf6-accept_vote :
    (c : Controller) (a : Rfpbuf) → (accept_vote c a).ospf6_siblings ≡ map advance c.ospf6_siblings
unfolding accept_vote
ospf6-accept_vote c a = ospf6-record_leader_xid (record c {
  ospf6_siblings = map advance c.ospf6_siblings;
  out = c.out ++ forward_all 0 a c.routers;
})

pub vote_majority-AllAligned : (c : Controller) → AllAligned c → Holds AllAligned (vote_majority c)
unfolding vote_majority
vote_majority-AllAligned c h =
    Holds-bind AllAligned (first_msg c.ospf6_siblings) _ λ r e. decide (compare_msgs r.0 1 r.1)
  where
    decide : (r : Rfpbuf × ℕ) → AllAligned (settle c r)
    decide (a, n) = elim (Bool-cases (exceeds_half n (num_hosts c))) [
      | inl most ↦
          rw (most, settle)
            (rw (ospf6-accept_vote c a)
              (All-map IsAligned advance advance-IsAligned c.ospf6_siblings h))
      | inr few ↦ rw (few, settle) h
    ]

-- Where the queues are in order, the message at a sibling's front bears that sibling's number: so
-- all supporters of a message are at one transaction id.
pub offers-xid :
    (m : Rfpbuf) (s : SibRouter) → IsAligned s → offers m s ≡ true → rh_xid m ≡ s.current_egress_xid
offers-xid m s h o = elim (queue_cases s.msgs_rcvd_queue) [
  | inl e ↦ ground arith
  | inr (b, q, e) ↦ ground (arith, eq_of_rfpbuf_equal m b)
]
