-- ===== src/Ospf/Elected.antt =====
-- The outcome of the election for the router itself (ospf6-sibling/ospf6_interface.c).
use harry.Base.{
  ℕ, ◌≡◌, ◌≢◌, refl, true, false, List, [], ◌∷◌, map, Option, none, some, arith, ◌==◌, inl, inr,
  Bool-cases, ==_iff,
}
use harry.Ospf.State.{Neighbor, Interface, if_dr, if_drother}
use harry.Ospf.Election.{
  Voter, voter_of, is_eligible, declares_dr, may_be_bdr, may_be_dr, better, better_backup,
  better_designated, better_bdrouter, better_drouter, or_else, best_of, myself_of, is_myself, elect,
  own_change, with_result, settled, elected, next_state, dr_election,
}

-- A comparison of others with others, and with one that may be nothing, gives no one else.
abbrev Others : (Option Voter → Voter → Option Voter) → Type 0
Others compare =
    (best : Option Voter) (n : Voter)
    → is_myself best ≡ false
    → n.myself ≡ false
    → is_myself (compare best n) ≡ false

bdrouter-Others : Others better_bdrouter
unfolding better_bdrouter better better_backup
bdrouter-Others none n h k = ground (arith, h, k)
bdrouter-Others (some a) n h k = ground (arith, h, k)

drouter-Others : Others better_drouter
unfolding better_drouter better better_designated
drouter-Others none n h k = ground (arith, h, k)
drouter-Others (some a) n h k = ground (arith, h, k)

best_of-Others :
    (compare : Option Voter → Voter → Option Voter)
    → Others compare
    → (best : Option Voter) (ons : List Neighbor) → is_myself best ≡ false
    → is_myself (best_of compare best (map voter_of ons)) ≡ false
unfolding best_of
best_of-Others compare o best [] h = h
best_of-Others compare o best (on ∷ ons) h =
    best_of-Others compare o (compare best (voter_of on)) ons
      (o best (voter_of on) h (unfold voter_of in refl))

-- One that may not be elected leaves the best of the others.
abbrev Passes : (Option Voter → Voter → Option Voter) → Voter → Type 0
Passes compare me =
    (best : Option Voter) → is_myself best ≡ false → is_myself (compare best me) ≡ false

bdrouter-Passes : (me : Voter) → me.priority ≡ 0 → Passes better_bdrouter me
unfolding better_bdrouter better may_be_bdr is_eligible
bdrouter-Passes me z none h = ground (arith, z, h)
bdrouter-Passes me z (some a) h = ground (arith, z, h)

drouter-Passes : (me : Voter) → me.priority ≡ 0 → Passes better_drouter me
unfolding better_drouter better may_be_dr is_eligible
drouter-Passes me z none h = ground (arith, z, h)
drouter-Passes me z (some a) h = ground (arith, z, h)

abbrev Neither : Option Voter × Option Voter → Type 0
Neither r = (is_myself r.0 ≡ false) × (is_myself r.1 ≡ false)

or_else-Others :
    (a b : Option Voter)
    → is_myself a ≡ false
    → is_myself b ≡ false
    → is_myself (or_else a b) ≡ false
or_else-Others none b h k = k
or_else-Others (some a) b h k = h

elect-Neither :
    (best_dr best_bdr : Option Voter) (me : Voter)
    → me.priority ≡ 0
    → is_myself best_dr ≡ false
    → is_myself best_bdr ≡ false
    → Neither (elect best_dr best_bdr me)
unfolding elect
elect-Neither best_dr best_bdr me z h k =
    let bdr = bdrouter-Passes me z best_bdr k in
    (
      or_else-Others (better_drouter best_dr me) (better_bdrouter best_bdr me)
          (drouter-Passes me z best_dr h) bdr,
      bdr,
    )

elected-Neither :
    (router_id : ℕ) (oi : Interface) → oi.priority ≡ 0 → Neither (elected router_id oi)
unfolding elected settled
elected-Neither router_id oi z =
    let best_bdr = best_of better_bdrouter none (map voter_of oi.neighbor_list) in
    let best_dr = best_of better_drouter none (map voter_of oi.neighbor_list) in
    let me = myself_of router_id oi in
    let first = elect best_dr best_bdr me in
    let h = best_of-Others better_drouter drouter-Others none oi.neighbor_list refl in
    let k = best_of-Others better_bdrouter bdrouter-Others none oi.neighbor_list refl in
    elim (Bool-cases (own_change me first)) [
      | inl c ↦ rw c (
          elect-Neither best_dr best_bdr (with_result me first) (unfold with_result myself_of in z)
            h k)
      | inr c ↦ rw c (elect-Neither best_dr best_bdr me (unfold myself_of in z) h k)
    ]

-- A router whose priority on an interface is 0 comes out of every election as neither the
-- designated router nor the backup.
pub dr_election-zero :
    (router_id : ℕ) (oi : Interface) → oi.priority ≡ 0 → (dr_election router_id oi).1.0 ≡ if_drother
unfolding dr_election next_state
dr_election-zero router_id oi z =
    let (dr, bdr) = elected-Neither router_id oi z in rw (dr, bdr) refl

==_false : (a b : ℕ) → a ≢ b → (a == b) ≡ false
==_false a b h = ground arith

-- Alone, a router takes the backup's role first, and then both.
alone-first :
    (me : Voter)
    → me.twoway ≡ true
    → me.priority ≢ 0
    → me.drouter ≢ me.router_id
    → elect none none me ≡ (some me, some me)
unfolding elect better_bdrouter better_drouter better may_be_bdr may_be_dr is_eligible declares_dr
alone-first me t p d = rw (t, ==_false me.priority 0 p, ==_false me.drouter me.router_id d) refl

alone-again :
    (me : Voter)
    → me.twoway ≡ true
    → me.priority ≢ 0
    → me.drouter ≡ me.router_id
    → elect none none me ≡ (some me, none)
unfolding elect better_bdrouter better_drouter better may_be_bdr may_be_dr is_eligible declares_dr
alone-again me t p d = rw (t, ==_false me.priority 0 p, (==_iff me.drouter me.router_id).1 d) refl

alone-change :
    (me : Voter)
    → me.myself ≡ true
    → me.drouter ≢ me.router_id
    → own_change me (some me, some me) ≡ true
unfolding own_change declares_dr
alone-change me m d = rw (m, ==_false me.drouter me.router_id d) refl

settled-alone :
    (me : Voter)
    → me.myself ≡ true
    → me.twoway ≡ true
    → me.priority ≢ 0
    → me.drouter ≢ me.router_id
    → settled none none me ≡ (some (with_result me (some me, some me)), none)
unfolding settled
settled-alone me m t p d =
    let again =
      alone-again (with_result me (some me, some me)) (unfold with_result in t)
        (unfold with_result in p) (unfold with_result in refl) in
    rw (alone-first me t p d, alone-change me m d, again) refl

elected-alone :
    (router_id : ℕ) (oi : Interface)
    → oi.neighbor_list ≡ []
    → oi.priority ≢ 0
    → oi.drouter ≢ router_id
    → elected router_id oi ≡ (
      some (
          with_result
            (myself_of router_id oi)
            (some (myself_of router_id oi), some (myself_of router_id oi))),
      none,
    )
unfolding elected best_of myself_of
elected-alone router_id oi e p d = rw e (settled-alone (myself_of router_id oi) refl refl p d)

-- A router without neighbors on an interface, on which its priority is not 0 and it is not the
-- designated router yet, comes out of the election as the designated router, without a backup.
pub dr_election-alone :
    (router_id : ℕ) (oi : Interface)
    → oi.neighbor_list ≡ []
    → oi.priority ≢ 0
    → oi.drouter ≢ router_id
    → ((dr_election router_id oi).1.0 ≡ if_dr)
      × (((dr_election router_id oi).0.drouter ≡ router_id)
          × ((dr_election router_id oi).0.bdrouter ≡ 0))
unfolding dr_election next_state
dr_election-alone router_id oi e p d =
    let r = elected-alone router_id oi e p d in
    (
      rw r (unfold with_result myself_of in refl),
      (rw r (unfold with_result myself_of in refl), rw r refl),
    )
