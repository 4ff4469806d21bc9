-- ===== src/Controller/Faults.antt =====
-- The faults of sib_router_process_packet of controller/sib_router.c.
use mathlib.Core.Option.{some-injective}
use harry.Base.{
  ℕ, ◌≡◌, refl, sym, subst, ◌↔◌, ◌>>=◌, List, [], ◌∷◌, ◌++◌, Option, none, some, Bool, true, false,
  ◌==◌, if◌then◌else◌, inl, inr, All, All-get, Option-cases, get_or, ltb,
}
use harry.Message.{
  Rfpbuf, RfpType, ipv6_route_set_request, forward_ospf6, redistribute_leader_elect, rh_type,
  rh_xid, header_size,
}
use harry.Database.Riak.{ConsistentRiak}
use harry.Controller.Persisted.{process_packet_stored, carry_out, carry_out-some, IsReliable}
use harry.Controller.State.{
  SibRouter, is_disconnected, SibId, ospf6_sib, Controller, get_sib, put_sib,
}
use harry.Controller.Vote.{vote_majority}
use harry.Controller.Packet.{
  append_msg_to_rcvd_queue, may_vote, queue_msg, synchronize, on_forward_ospf6, name_leader,
  on_leader_elect, dispatch, process_packet,
}
use harry.Controller.Live.{get_sib-put_sib}
use harry.Controller.Agreement.{HasEmptyQueue}
use harry.Controller.Majority.{vote_majority-none_iff}

append_not_nil : (q : List Rfpbuf) (m : Rfpbuf) → q ++ m ∷ [] ≡ [] → ⊥
append_not_nil [] m e = cc
append_not_nil (x ∷ q) m e = cc

queued_not_empty :
    (c : Controller) (i : ℕ) (s : SibRouter) (msg : Rfpbuf)
    → get_sib c (ospf6_sib i) ≡ some s
    → All HasEmptyQueue (put_sib c (ospf6_sib i) (append_msg_to_rcvd_queue s msg)).ospf6_siblings
    → ⊥
queued_not_empty c i s msg e h = append_not_nil s.msgs_rcvd_queue msg (
    unfold append_msg_to_rcvd_queue in
    All-get HasEmptyQueue (put_sib c (ospf6_sib i) (append_msg_to_rcvd_queue s msg)).ospf6_siblings
      i (append_msg_to_rcvd_queue s msg) h
      (unfold get_sib in get_sib-put_sib c (ospf6_sib i) s (append_msg_to_rcvd_queue s msg) e))

-- The sender's own message is there, so the vote finds one.
queue_msg-returns :
    (c : Controller) (i : ℕ) (s : SibRouter) (msg : Rfpbuf)
    → get_sib c (ospf6_sib i) ≡ some s
    → queue_msg c (ospf6_sib i) s msg ≡ none
    → ⊥
unfolding queue_msg
queue_msg-returns c i s msg e =
    votes (rh_xid msg == s.current_egress_xid) (may_vote queued)
      (ltb s.current_egress_xid (rh_xid msg))
  where
    queued : Controller
    queued = put_sib c (ospf6_sib i) (append_msg_to_rcvd_queue s msg)

    votes :
        (now vote later : Bool)
        → (if now
            then (if vote then vote_majority queued else some queued)
            else if later
            then some queued
            else some c)
          ≡ none
        → ⊥
    votes true true later h = queued_not_empty c i s msg e ((vote_majority-none_iff queued).0 h)
    votes true false later h = cc
    votes false vote true h = cc
    votes false vote false h = cc

on_forward_ospf6-returns :
    (c : Controller) (i : ℕ) (s : SibRouter) (msg : Rfpbuf)
    → get_sib c (ospf6_sib i) ≡ some s
    → on_forward_ospf6 c (ospf6_sib i) s msg ≡ none
    → ⊥
unfolding on_forward_ospf6
on_forward_ospf6-returns c i s msg e =
    queue_msg-returns (put_sib c (ospf6_sib i) (synchronize c s)) i (synchronize c s) msg
      (get_sib-put_sib c (ospf6_sib i) s (synchronize c s) e)

-- No leader is known whose connection is still there.
abbrev pub IsUnled : Controller → Type 0
IsUnled c =
    (l : SibRouter) → (c.leader_sibling >>= get_sib c) ≡ some l → is_disconnected l.state ≡ true

-- A sibling gives up the lead without such a leader.
record GivesUp (c : Controller) (msg : Rfpbuf) (t : Option RfpType) : Type 0 where
  pub announces : t ≡ some redistribute_leader_elect
  pub gives_up : (get_or msg header_size 0 == 1) ≡ false
  pub unled : IsUnled c

bind_assoc {ℓ κ μ} :
    {A : Type ℓ} {B : Type κ} {C : Type μ} (m : Option A) (f : A → Option B) (g : B → Option C)
    → ((m >>= f) >>= g) ≡ (m >>= λ a. f a >>= g)
bind_assoc none f g = refl
bind_assoc (some a) f g = refl

gone_iff :
    (o : Option SibRouter) (next : Controller)
    → ((o >>= λ l. if is_disconnected l.state then none else some next) ≡ none)
      ↔ ((l : SibRouter) → o ≡ some l → is_disconnected l.state ≡ true)
gone_iff none next = (λ h l e. cc, λ h. refl)
gone_iff (some s) next = (there (is_disconnected s.state) refl, λ h. rw (h s refl) refl)
  where
    there :
        (b : Bool)
        → is_disconnected s.state ≡ b
        → (if b then none else some next) ≡ none
        → (l : SibRouter) → some s ≡ some l
        → is_disconnected l.state ≡ true
    there true d h l e = subst (λ m. is_disconnected m.state ≡ true) (some-injective s l e) d
    there false d h l e = absurd cc

name_leader-none_iff :
    (c : Controller) (id : SibId) (s : SibRouter) → (name_leader false c id s ≡ none) ↔ IsUnled c
unfolding name_leader
name_leader-none_iff c id s =
    rw
      (sym (
        bind_assoc c.leader_sibling (get_sib c) (λ l.
          if is_disconnected l.state
          then none
          else some (put_sib c id (record s { is_leader = false })))))
      (gone_iff (c.leader_sibling >>= get_sib c) _)

name_leader-none :
    (b : Bool) (c : Controller) (id : SibId) (s : SibRouter)
    → name_leader b c id s ≡ none
    → (b ≡ false) × IsUnled c
unfolding name_leader
name_leader-none true c id s h = cc
name_leader-none false c id s h = (refl, (name_leader-none_iff c id s).0 h)

dispatch-none :
    (t : Option RfpType) (c : Controller) (i : ℕ) (s : SibRouter) (msg : Rfpbuf)
    → get_sib c (ospf6_sib i) ≡ some s
    → dispatch t c (ospf6_sib i) s msg ≡ none
    → GivesUp c msg t
unfolding dispatch on_leader_elect
dispatch-none (some ipv6_route_set_request) c i s msg e h = absurd (queue_msg-returns c i s msg e h)
dispatch-none (some forward_ospf6) c i s msg e h = absurd (on_forward_ospf6-returns c i s msg e h)
dispatch-none (some redistribute_leader_elect) c i s msg e h =
    let (f, l) = name_leader-none (get_or msg header_size 0 == 1) c (ospf6_sib i) s h in
    record { announces = refl; gives_up = f; unled = l }
dispatch-none _ c i s msg e h = cc

process_packet-none :
    (c : Controller) (i : ℕ) (s : SibRouter) (msg : Rfpbuf)
    → get_sib c (ospf6_sib i) ≡ some s
    → process_packet c (ospf6_sib i) msg ≡ none
    → GivesUp c msg (rh_type msg)
process_packet-none c i s msg e h =
    dispatch-none (rh_type msg) c i s msg e (unfold process_packet in rw e at h)

none-process_packet :
    (c : Controller) (i : ℕ) (s : SibRouter) (msg : Rfpbuf)
    → get_sib c (ospf6_sib i) ≡ some s
    → GivesUp c msg (rh_type msg)
    → process_packet c (ospf6_sib i) msg ≡ none
unfolding process_packet dispatch on_leader_elect
none-process_packet c i s msg e g =
    rw (e, g.announces, g.gives_up) ((name_leader-none_iff c (ospf6_sib i) s).1 g.unled)

module _ {S : Type 0} (db : ConsistentRiak S) (reliable : IsReliable db) where
  -- Where the calls of db_set_egress_xid do not fault, a packet of an OSPF6 sibling makes the
  -- controller read through NULL, behind an array or in a freed connection exactly when it
  -- announces that the sender is not the leader while no leader is known, or none but one that has
  -- disconnected. What the connections do with the messages that are sent is not counted.
  pub process_packet_stored-none_iff :
      (s : S) (c : Controller) (i : ℕ) (sr : SibRouter) (msg : Rfpbuf)
      → get_sib c (ospf6_sib i) ≡ some sr
      → (process_packet_stored db s c (ospf6_sib i) msg ≡ none) ↔ (
          (rh_type msg ≡ some redistribute_leader_elect)
          × ((get_or msg header_size 0 == 1) ≡ false)
          × ((l : SibRouter)
              → (c.leader_sibling >>= get_sib c) ≡ some l
              → is_disconnected l.state ≡ true))
  unfolding process_packet_stored get_sib
  process_packet_stored-none_iff s c i sr msg e = (there, back)
    where
      fresh : Controller
      fresh = record c { out = [] }

      there :
          process_packet_stored db s c (ospf6_sib i) msg ≡ none
          → (rh_type msg ≡ some redistribute_leader_elect)
            × ((get_or msg header_size 0 == 1) ≡ false)
            × IsUnled c
      there h = elim (Option-cases (process_packet fresh (ospf6_sib i) msg)) [
        | inl f ↦
            let g = process_packet-none fresh i sr msg e f in (g.announces, g.gives_up, g.unled)
        | inr (next, f) ↦ elim (Option-cases (carry_out db s next.out)) [
          | inl k ↦ absurd (carry_out-some db reliable s next.out k)
          | inr (after, k) ↦ absurd (cc (rw (f, k) at h))
        ]
      ]

      back :
          (rh_type msg ≡ some redistribute_leader_elect)
            × ((get_or msg header_size 0 == 1) ≡ false)
            × IsUnled c
          → process_packet_stored db s c (ospf6_sib i) msg ≡ none
      back (t, f, l) =
          rw
            (none-process_packet fresh i sr msg e
              (record { announces = t; gives_up = f; unled = l }))
            refl
