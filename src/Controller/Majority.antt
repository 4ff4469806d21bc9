-- ===== src/Controller/Majority.antt =====
-- vote_majority and its guard against majorities of the siblings.
use harry.Base.{
  ℕ, ◌+◌, ◌*◌, ◌≤◌, ◌<◌, ◌≡◌, ◌≢◌, refl, sym, ap, ◌∙◌, ◌↔◌, List, [], ◌∷◌, ◌++◌, none, some, Bool,
  true, false, if◌then◌else◌, ◌⊎◌, inl, inr, arith, All, Option-cases, length, ltb, flag, ltb→lt,
}
use harry.Message.{Rfpbuf}
use harry.Message.Laws.{eq_of_rfpbuf_equal}
use harry.Controller.State.{SibRouter, voter_all, Controller}
use harry.Controller.Vote.{
  settle, compare_msgs, num_hosts, exceeds_half, scan_end, majority_have_msg_rcvd, first_msg,
  accept_vote, vote_majority,
}
use harry.Controller.Packet.{may_vote}
use harry.Controller.Invariant.{Inv}
use harry.Controller.Agreement.{offers, supporters, HasEmptyQueue, queue_cases, vote_majority_lem}

-- Where the first message of a list of siblings is.
data FirstMsg (xs : List SibRouter) : Type 0 where
  nowhere : All HasEmptyQueue xs → FirstMsg xs
  at :
      (pre : List SibRouter) (s : SibRouter) (post : List SibRouter) (m : Rfpbuf) (q : List Rfpbuf)
      → xs ≡ pre ++ s ∷ post
      → All HasEmptyQueue pre
      → s.msgs_rcvd_queue ≡ m ∷ q
      → FirstMsg xs

first_cons :
    (x : SibRouter) (xs : List SibRouter) → FirstMsg xs → x.msgs_rcvd_queue ≡ [] → FirstMsg (x ∷ xs)
first_cons x xs (nowhere h) e = nowhere (e, h)
first_cons x xs (at pre s post m q d h f) e = at (x ∷ pre) s post m q (ap (◌∷◌ x) d) (e, h) f

first_cases : (xs : List SibRouter) → FirstMsg xs
first_cases [] = nowhere tt
first_cases (x ∷ xs) = elim (queue_cases x.msgs_rcvd_queue) [
  | inl e ↦ first_cons x xs (first_cases xs) e
  | inr (m, q, e) ↦ at [] x xs m q refl tt e
]

first_msg-none : (xs : List SibRouter) → All HasEmptyQueue xs → first_msg xs ≡ none
unfolding first_msg
first_msg-none [] h = refl
first_msg-none (x ∷ xs) h = rw (h.0, first_msg) (first_msg-none xs h.1)

first_msg-empty : (xs : List SibRouter) → first_msg xs ≡ none → All HasEmptyQueue xs
unfolding first_msg
first_msg-empty [] e = tt
first_msg-empty (x ∷ xs) e = elim (queue_cases x.msgs_rcvd_queue) [
  | inl h ↦ (h, first_msg-empty xs (rw (h, first_msg) at e))
  | inr (m, q, h) ↦ cc (rw (h, first_msg) at e)
]

-- A vote reads past the last sibling exactly when no sibling has a message.
pub vote_majority-none_iff :
    (c : Controller) → (vote_majority c ≡ none) ↔ All HasEmptyQueue c.ospf6_siblings
vote_majority-none_iff c = (empty, faults)
  where
    faults : All HasEmptyQueue c.ospf6_siblings → vote_majority c ≡ none
    faults h = unfold vote_majority in rw (first_msg-none c.ospf6_siblings h)

    empty : vote_majority c ≡ none → All HasEmptyQueue c.ospf6_siblings
    empty e = elim (Option-cases (first_msg c.ospf6_siblings)) [
      | inl h ↦ first_msg-empty c.ospf6_siblings h
      | inr (r, h) ↦ cc (voted r h)
    ]
      where
        voted :
            (r : Rfpbuf × List SibRouter)
            → first_msg c.ospf6_siblings ≡ some r
            → none ≡ some (settle c (compare_msgs r.0 1 r.1))
        voted r h = sym e ∙ (unfold vote_majority in rw h refl)

offers-both : (m m' : Rfpbuf) (s : SibRouter) → m' ≢ m → flag (offers m s) + flag (offers m' s) ≤ 1
offers-both m m' s h = elim (queue_cases s.msgs_rcvd_queue) [
  | inl e ↦ ground arith
  | inr (b, q, e) ↦ ground (arith, eq_of_rfpbuf_equal m b, eq_of_rfpbuf_equal m' b)
]

-- Different messages have different supporters.
supporters-both :
    (m m' : Rfpbuf) (ss : List SibRouter) → m' ≢ m → supporters m ss + supporters m' ss ≤ length ss
supporters-both m m' [] h = omega arith
supporters-both m m' (s ∷ ss) h = omega (arith, offers-both m m' s h, supporters-both m m' ss h)

exceeds_half-all :
    (c : Controller) (k : ℕ)
    → c.voter_type_conf ≡ voter_all
    → exceeds_half k (num_hosts c) ≡ ltb c.num_sibs_conf (2 * k)
unfolding exceeds_half num_hosts
exceeds_half-all c k h = rw h

module _ (c : Controller) (v : Inv c) (all : c.voter_type_conf ≡ voter_all) where
  -- Under the invariant, with VOTER_ALL and all configured siblings connected, a vote that returns
  -- either changes nothing or accepts a message that more than half of the configured siblings have
  -- at the front of their queues, and every other message then has less than half.
  pub vote_majority-majority :
      {c' : Controller}
      → length c.ospf6_siblings ≡ c.num_sibs_conf
      → vote_majority c ≡ some c'
      → (c' ≡ c)
        ⊎ ((m : Rfpbuf) × (c' ≡ accept_vote c m)
            × (c.num_sibs_conf < 2 * supporters m c.ospf6_siblings)
            × ((m' : Rfpbuf) → m' ≢ m → 2 * supporters m' c.ospf6_siblings < c.num_sibs_conf))
  vote_majority-majority {c'} len h = elim (first_cases c.ospf6_siblings) [
    | nowhere e ↦ cc ((vote_majority-none_iff c).1 e)
    | at pre s post m q d e f ↦
        decide m (exceeds_half (supporters m c.ospf6_siblings) (num_hosts c)) refl
          (sym h ∙ vote_majority_lem c pre post s m q v d e f)
  ]
    where
      decide :
          (m : Rfpbuf) (b : Bool)
          → exceeds_half (supporters m c.ospf6_siblings) (num_hosts c) ≡ b
          → some c' ≡ some (if b then accept_vote c m else c)
          → (c' ≡ c)
            ⊎ ((m : Rfpbuf) × (c' ≡ accept_vote c m)
                × (c.num_sibs_conf < 2 * supporters m c.ospf6_siblings)
                × ((m' : Rfpbuf) → m' ≢ m → 2 * supporters m' c.ospf6_siblings < c.num_sibs_conf))
      decide m true e k =
          let most : c.num_sibs_conf < 2 * supporters m c.ospf6_siblings =
            ltb→lt _ _ (sym (exceeds_half-all c _ all) ∙ e) in
          inr (m, cc, most, λ m' n. omega (arith, supporters-both m m' c.ospf6_siblings n))
      decide m false e k = inl (cc)

  supporters-All :
      (m : Rfpbuf) (ss : List SibRouter)
      → All (λ s. offers m s ≡ true) ss
      → supporters m ss ≡ length ss
  supporters-All m [] h = refl
  supporters-All m (s ∷ ss) h = rw h.0 (omega (arith, supporters-All m ss h.1))

  -- Under the invariant, with VOTER_ALL and three or more siblings, all connected: if the first
  -- sibling's message differs from the one that all others agree on, that message has the majority
  -- and the vote accepts nothing.
  pub vote_majority-blocked :
      (s : SibRouter) (post : List SibRouter) (a m : Rfpbuf) (q : List Rfpbuf)
      → c.ospf6_siblings ≡ s ∷ post
      → s.msgs_rcvd_queue ≡ a ∷ q
      → a ≢ m
      → All (λ t. offers m t ≡ true) post
      → length c.ospf6_siblings ≡ c.num_sibs_conf
      → 3 ≤ c.num_sibs_conf
      → (c.num_sibs_conf < 2 * supporters m c.ospf6_siblings) × (vote_majority c ≡ some c)
  vote_majority-blocked s post a m q d f n agree len three = (most, blocked)
    where
      for_m : supporters m c.ospf6_siblings ≡ flag (offers m s) + length post
      for_m = rw (d, supporters-All m post agree)

      size : c.num_sibs_conf ≡ 1 + length post
      size = sym len ∙ ap length d ∙ omega arith

      most : c.num_sibs_conf < 2 * supporters m c.ospf6_siblings
      most = omega (arith, for_m, size)

      few : ltb c.num_sibs_conf (2 * supporters a c.ospf6_siblings) ≡ false
      few = ground (arith, supporters-both m a c.ospf6_siblings n, for_m, size)

      blocked : vote_majority c ≡ some c
      blocked =
          vote_majority_lem c [] post s a q v d tt f
          ∙ rw (exceeds_half-all c (supporters a c.ospf6_siblings) all, few)

-- The count of the guard is at least the number of siblings, whatever they have received.
scan_end-ge-length : (ss : List SibRouter) → length ss ≤ scan_end ss
unfolding scan_end
scan_end-ge-length [] = omega arith
scan_end-ge-length (s ∷ []) = ground arith
scan_end-ge-length (s ∷ t ∷ rest) =
    ground (arith, scan_end-ge-length rest, scan_end-ge-length (t ∷ rest))

scan_end-pos : (ss : List SibRouter) → 0 < scan_end ss → 0 < length ss
unfolding scan_end
scan_end-pos [] h = omega arith
scan_end-pos (s ∷ ss) h = omega arith

-- With VOTER_ALL the guard of a vote holds exactly when as many siblings have connected as are
-- configured, and at least one; it does not depend on what they have received.
pub may_vote_iff :
    (c : Controller)
    → c.voter_type_conf ≡ voter_all
    → (may_vote c ≡ true) ↔ ((length c.ospf6_siblings ≡ c.num_sibs_conf) × (0 < c.num_sibs_conf))
unfolding may_vote majority_have_msg_rcvd
may_vote_iff c all = (there, back)
  where
    low : length c.ospf6_siblings ≤ scan_end c.ospf6_siblings
    low = scan_end-ge-length c.ospf6_siblings

    guard :
        exceeds_half (scan_end c.ospf6_siblings) (num_hosts c)
        ≡ ltb c.num_sibs_conf (2 * scan_end c.ospf6_siblings)
    guard = exceeds_half-all c (scan_end c.ospf6_siblings) all

    there : may_vote c ≡ true → (length c.ospf6_siblings ≡ c.num_sibs_conf) × (0 < c.num_sibs_conf)
    there h = ground (arith, guard, scan_end-pos c.ospf6_siblings)

    back : (length c.ospf6_siblings ≡ c.num_sibs_conf) × (0 < c.num_sibs_conf) → may_vote c ≡ true
    back h = ground (arith, guard, low)
