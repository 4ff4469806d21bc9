-- ===== src/Controller/Vote.antt =====
-- majority_have_msg_rcvd and vote_majority of controller/sib_router.c.
use harry.Base.{
  ℕ, suc, ◌+◌, ◌-◌, ◌*◌, List, [], ◌∷◌, ◌++◌, Option, none, some, Bool, true, false, not, ◌&&◌, ltb,
  leb, if◌then◌else◌, map, head?, tail, is_empty, count_if, u32, ◌>>=◌,
}
use harry.Message.{Rfpbuf, rfpbuf_equal}
use harry.Controller.State.{
  SibRouter, is_disconnected, VoterType, voter_any, voter_all, Router, Output, router_forward,
  db_set_egress_xid, Controller, get_sib, emit,
}

unfoldable pub num_waiting_on_first_egress_msg : Controller → ℕ
num_waiting_on_first_egress_msg c = count_if (λ s. s.waiting_on_first_egress_msg) c.ospf6_siblings

-- `num_hosts`; `none` stands for a negative number.
hosts_of : VoterType → Controller → Option ℕ
hosts_of voter_all c = some c.num_sibs_conf
hosts_of voter_any c =
    let waiting = num_waiting_on_first_egress_msg c in
    if leb waiting c.n_ospf6_siblings_routing
    then some (c.n_ospf6_siblings_routing - waiting)
    else none

unfoldable pub num_hosts : Controller → Option ℕ
unfolding hosts_of num_waiting_on_first_egress_msg
num_hosts c = hosts_of c.voter_type_conf c

-- `(float) i / num_hosts > 0.5`: with no host it is infinite for a positive `i` and not a number
-- for 0; with a negative number of hosts it is not positive.
unfoldable pub exceeds_half : ℕ → Option ℕ → Bool
exceeds_half i none = false
exceeds_half i (some h) = ltb h (2 * i)

-- What a sibling has to offer: the front of its queue, unless it is disconnected.
unfoldable pub ballot : SibRouter → Option Rfpbuf
ballot s = if is_disconnected s.state then none else head? s.msgs_rcvd_queue

unfoldable pub has_msg : SibRouter → Bool
has_msg s = not (is_disconnected s.state) && not (is_empty s.msgs_rcvd_queue)

-- The value of `i` after the loop of majority_have_msg_rcvd, which counts by its own index: a
-- sibling with a message makes the loop skip the next one.
unfoldable pub scan_end : List SibRouter → ℕ
unfolding has_msg
scan_end [] = 0
scan_end (s ∷ []) = if has_msg s then 2 else 1
scan_end (s ∷ t ∷ rest) = elim (has_msg s) [
  | true ↦ scan_end rest + 2
  | false ↦ scan_end (t ∷ rest) + 1
]

unfoldable pub majority_have_msg_rcvd : Controller → Bool
majority_have_msg_rcvd c = exceeds_half (scan_end c.ospf6_siblings) (num_hosts c)

-- The loop over `j`: the first message, and the siblings after it. With no message at all the loop
-- reads past the last sibling.
unfoldable pub first_msg : List SibRouter → Option (Rfpbuf × List SibRouter)
first_msg [] = none
first_msg (s ∷ ss) = elim s.msgs_rcvd_queue [ [] ↦ first_msg ss | m ∷ q ↦ some (m, ss) ]

-- The loop over `i`: `a` is compared with each later message and replaced by one that is equal.
unfoldable pub compare_msgs : Rfpbuf → ℕ → List SibRouter → Rfpbuf × ℕ
compare_msgs a num [] = (a, num)
compare_msgs a num (s ∷ ss) = elim (ballot s) [
  | none ↦ compare_msgs a num ss
  | some b ↦ elim (rfpbuf_equal a b) [
    | true ↦ compare_msgs b (num + 1) ss
    | false ↦ compare_msgs a num ss
  ]
]

unfoldable pub forward_all : ℕ → Rfpbuf → List Router → List Output
forward_all i a [] = []
forward_all i a (r ∷ rs) = router_forward i a ∷ forward_all (suc i) a rs

-- Every queue loses its front, and every sibling's transaction id is increased.
unfoldable pub advance : SibRouter → SibRouter
advance s = record s {
  msgs_rcvd_queue = tail s.msgs_rcvd_queue;
  current_egress_xid = u32 (s.current_egress_xid + 1);
}

-- The call of db_set_egress_xid is recorded; Controller.Persisted makes it, with its faults.
unfoldable pub store_xid : Option SibRouter → Controller → Controller
store_xid none c = c
store_xid (some l) c =
    if is_disconnected l.state then c else emit c (db_set_egress_xid l.current_egress_xid ∷ [])

-- The leader's transaction id goes to the data base.
unfoldable pub record_leader_xid : Controller → Controller
unfolding store_xid get_sib
record_leader_xid c = store_xid (c.leader_sibling >>= get_sib c) c

-- The branch of vote_majority that has the votes.
unfoldable pub accept_vote : Controller → Rfpbuf → Controller
unfolding forward_all advance record_leader_xid
accept_vote c a = record_leader_xid (record c {
  ospf6_siblings = map advance c.ospf6_siblings;
  out = c.out ++ forward_all 0 a c.routers;
})

unfoldable pub settle : Controller → Rfpbuf × ℕ → Controller
unfolding accept_vote exceeds_half num_hosts
settle c (a, num_of_equal_msgs) =
    if exceeds_half num_of_equal_msgs (num_hosts c) then accept_vote c a else c

unfoldable pub vote_majority : Controller → Option Controller
unfolding first_msg compare_msgs settle
vote_majority c = do (a, rest) ← first_msg c.ospf6_siblings; some (settle c (compare_msgs a 1 rest))
