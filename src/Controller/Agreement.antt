-- ===== src/Controller/Agreement.antt =====
-- vote_majority against the count of equal messages.
use harry.Base.{
  ℕ, ◌+◌, ◌≡◌, refl, ap, subst, ◌∙◌, List, [], ◌∷◌, ◌++◌, some, Bool, false, if◌then◌else◌, ◌⊎◌,
  inl, inr, arith, count_if, All, Bool-cases, head?, flag,
}
use native.Mathlib.Nat.{add-zero}
use harry.Message.{Rfpbuf, rfpbuf_equal}
use harry.Message.Laws.{rfpbuf_equal_refl, eq_of_rfpbuf_equal}
use harry.Controller.State.{SibRouter, Controller}
use harry.Controller.Vote.{
  num_hosts, exceeds_half, ballot, first_msg, compare_msgs, accept_vote, settle, vote_majority,
}
use harry.Controller.Invariant.{IsSound, Inv}

-- The front of a sibling's queue is the message.
abbrev pub offers : Rfpbuf → SibRouter → Bool
offers m s = elim s.msgs_rcvd_queue [ [] ↦ false | b ∷ q ↦ rfpbuf_equal m b ]

-- How many siblings have the message at the front of their queues.
abbrev pub supporters : Rfpbuf → List SibRouter → ℕ
supporters m ss = count_if (offers m) ss

abbrev pub HasEmptyQueue : SibRouter → Type 0
HasEmptyQueue s = s.msgs_rcvd_queue ≡ []

ballot_of_sound : (s : SibRouter) → IsSound s → ballot s ≡ head? s.msgs_rcvd_queue
unfolding ballot
ballot_of_sound s h = ground (arith, h.disconnected_empty)

pub queue_cases : (q : List Rfpbuf) → (q ≡ []) ⊎ ((m : Rfpbuf) × (r : List Rfpbuf) × (q ≡ m ∷ r))
queue_cases [] = inl refl
queue_cases (m ∷ r) = inr (m, r, refl)

offers_none : (a : Rfpbuf) (s : SibRouter) → s.msgs_rcvd_queue ≡ [] → flag (offers a s) ≡ 0
offers_none a s e = ground arith

offers_some :
    (a m : Rfpbuf) (q : List Rfpbuf) (s : SibRouter)
    → s.msgs_rcvd_queue ≡ m ∷ q
    → flag (offers a s) ≡ flag (rfpbuf_equal a m)
offers_some a m q s e = ground arith

-- Exchanging the compared message for an equal one changes nothing, so the loop counts supporters.
compare_msgs-supporters :
    (a : Rfpbuf) (n : ℕ) (ss : List SibRouter)
    → All IsSound ss
    → compare_msgs a n ss ≡ (a, n + supporters a ss)
unfolding compare_msgs
compare_msgs-supporters a n [] h = rw add-zero
compare_msgs-supporters a n (s ∷ ss) h = elim (queue_cases s.msgs_rcvd_queue) [
  | inl e ↦
      rw (ballot_of_sound s h.0 ∙ ap head? e, compare_msgs)
        (compare_msgs-supporters a n ss h.1 ∙ ap (λ k. (a, k)) (omega (arith, offers_none a s e)))
  | inr (m, q, e) ↦
      rw (ballot_of_sound s h.0 ∙ ap head? e, compare_msgs)
        (elim (Bool-cases (rfpbuf_equal a m)) [
          | inl same ↦
              rw (same, compare_msgs)
                (rw (← eq_of_rfpbuf_equal a m same) (
                  compare_msgs-supporters a (n + 1) ss h.1
                  ∙ ap (λ k. (a, k)) (omega (arith, offers_some a m q s e ∙ ap flag same))))
          | inr other ↦
              rw (other, compare_msgs)
                (compare_msgs-supporters a n ss h.1
                  ∙ ap (λ k. (a, k)) (omega (arith, offers_some a m q s e ∙ ap flag other)))
        ])
]

-- The siblings before the first message support nothing.
first_msg-skip :
    (pre post : List SibRouter) (s : SibRouter) (m : Rfpbuf) (q : List Rfpbuf)
    → All HasEmptyQueue pre
    → s.msgs_rcvd_queue ≡ m ∷ q
    → first_msg (pre ++ s ∷ post) ≡ some (m, post)
unfolding first_msg
first_msg-skip [] post s m q h e = rw (e, first_msg)
first_msg-skip (p ∷ pre) post s m q h e = rw (h.0, first_msg) (first_msg-skip pre post s m q h.1 e)

supporters-skip :
    (a : Rfpbuf) (pre post : List SibRouter)
    → All HasEmptyQueue pre
    → supporters a (pre ++ post) ≡ supporters a post
supporters-skip a [] post h = refl
supporters-skip a (p ∷ pre) post h =
    omega (arith, offers_none a p h.0, supporters-skip a pre post h.1)

All-split :
    (pre : List SibRouter) (s : SibRouter) (post : List SibRouter)
    → All IsSound (pre ++ s ∷ post)
    → All IsSound post
All-split [] s post h = h.1
All-split (p ∷ pre) s post h = All-split pre s post h.1

-- Under the invariant, a vote decides on the message of the first sibling that has one, by the
-- number of siblings with the same message at the front: with more than half of the hosts it is
-- accepted, otherwise nothing changes.
pub vote_majority_lem :
    (c : Controller) (pre post : List SibRouter) (s : SibRouter) (m : Rfpbuf) (q : List Rfpbuf)
    → Inv c
    → c.ospf6_siblings ≡ pre ++ s ∷ post
    → All HasEmptyQueue pre
    → s.msgs_rcvd_queue ≡ m ∷ q
    → vote_majority c
      ≡ some (
          if exceeds_half (supporters m c.ospf6_siblings) (num_hosts c) then accept_vote c m else c)
unfolding vote_majority settle
vote_majority_lem c pre post s m q v e h f =
    let found : first_msg c.ospf6_siblings ≡ some (m, post) =
      ap first_msg e ∙ first_msg-skip pre post s m q h f in
    let sound : All IsSound post = All-split pre s post (subst (All IsSound) e v.ospf6_sound) in
    let total : 1 + supporters m post ≡ supporters m c.ospf6_siblings =
      rw (e, supporters-skip m pre (s ∷ post) h)
        (omega (arith, offers_some m m q s f ∙ ap flag (rfpbuf_equal_refl m))) in
    rw (found, compare_msgs-supporters m 1 post sound, total)
