-- ===== src/Controller/Tests.antt =====
-- The theorems on the controller at concrete siblings and messages.
use harry.Base.{
  get_or, ◌==◌, ℕ, ◌>>=◌, ◌≤◌, ◌*◌, ◌<◌, ◌≡◌, ◌≢◌, refl, ◌↔◌, List, [], ◌∷◌, none, some, true,
  false, ◌⊎◌, arith, All, Holds, length, if◌then◌else◌,
}
use harry.Message.{redistribute_leader_elect, rh_type, header_size, Rfpbuf, rfpbuf_equal}
use harry.Controller.State.{
  connected, is_disconnected, routing, SibRouter, voter_all, ospf6_sib, Controller, get_sib,
}
use harry.Controller.Vote.{
  vote_majority, accept_vote, first_msg, compare_msgs, settle, exceeds_half, num_hosts, ballot,
}
use harry.Controller.Packet.{may_vote}
use harry.Controller.Life.{accept_ospf6, accepts_ospf6, runs, history, sib_router_init}
use harry.Controller.Invariant.{IsSound, Inv}
use harry.Controller.Agreement.{supporters, offers, HasEmptyQueue, vote_majority_lem}
use harry.Controller.Majority.{
  vote_majority-none_iff, vote_majority-majority, vote_majority-blocked, may_vote_iff,
}
use harry.Database.Riak.{ConsistentRiak}
use harry.Database.Ids
use harry.Controller.Persisted.{IsReliable, process_packet_stored}
use harry.Controller.Faults.{process_packet_stored-none_iff}
use harry.Controller.Accept.{IsConnected, accept_ospf6-none_iff}
use harry.Controller.Moves.{Moves, process_packet-Moves}
use harry.Controller.Packet.{process_packet}
use harry.Controller.Events.{history-init-Inv}

-- A forwarded OSPF6 message with transaction id 5, another one, and one with id 6.
abbrev msg_a : Rfpbuf
msg_a = 1 ∷ 23 ∷ 0 ∷ 9 ∷ 0 ∷ 0 ∷ 0 ∷ 5 ∷ 7 ∷ []

abbrev msg_b : Rfpbuf
msg_b = 1 ∷ 23 ∷ 0 ∷ 9 ∷ 0 ∷ 0 ∷ 0 ∷ 5 ∷ 8 ∷ []

abbrev msg_6 : Rfpbuf
msg_6 = 1 ∷ 23 ∷ 0 ∷ 8 ∷ 0 ∷ 0 ∷ 0 ∷ 6 ∷ []

abbrev sib : List Rfpbuf → SibRouter
sib queue = record {
  state = routing;
  current_ingress_xid = 0;
  current_ingress_ack_rcvd = false;
  current_egress_xid = 5;
  waiting_on_first_egress_msg = false;
  msgs_rcvd_queue = queue;
  is_leader = false;
}

abbrev with_queues : List SibRouter → Controller
with_queues sibs = record {
  ospf6_siblings = sibs;
  bgp_siblings = [];
  n_ospf6_siblings_routing = length sibs;
  leader_sibling = none;
  num_sibs_conf = 3;
  voter_type_conf = voter_all;
  routers = record { port_list = [] } ∷ [];
  rib = [];
  out = [];
}

-- Two siblings that agree and one that does not; the one that does not stands first in the other.
abbrev agreeing : Controller
agreeing = with_queues (sib (msg_a ∷ []) ∷ sib (msg_b ∷ []) ∷ sib (msg_a ∷ []) ∷ [])

abbrev blocked : Controller
blocked = with_queues (sib (msg_b ∷ []) ∷ sib (msg_a ∷ []) ∷ sib (msg_a ∷ []) ∷ [])

abbrev silent : Controller
silent = with_queues (sib [] ∷ sib [] ∷ sib [] ∷ [])

sib-IsSound : (q : List Rfpbuf) → IsSound (sib q)
sib-IsSound q = record { waiting_routes = λ e. refl; disconnected_empty = λ e. cc }

with_queues-Inv : (p q r : List Rfpbuf) → Inv (with_queues (sib p ∷ sib q ∷ sib r ∷ []))
with_queues-Inv p q r = record {
  counted = refl;
  ospf6_sound = (sib-IsSound p, (sib-IsSound q, (sib-IsSound r, tt)));
  bgp_sound = tt;
}

agreeing_vote : vote_majority agreeing ≡ some (accept_vote agreeing msg_a)
unfolding vote_majority first_msg compare_msgs settle exceeds_half num_hosts ballot rfpbuf_equal
agreeing_vote = refl

vote_majority-majority_example :
    (accept_vote agreeing msg_a ≡ agreeing)
    ⊎ ((m : Rfpbuf) × (accept_vote agreeing msg_a ≡ accept_vote agreeing m)
        × (3 < 2 * supporters m agreeing.ospf6_siblings)
        × ((m' : Rfpbuf) → m' ≢ m → 2 * supporters m' agreeing.ospf6_siblings < 3))
vote_majority-majority_example =
    vote_majority-majority agreeing (with_queues-Inv (msg_a ∷ []) (msg_b ∷ []) (msg_a ∷ [])) refl
      {c' = accept_vote agreeing msg_a} refl agreeing_vote

vote_majority-none_iff_example :
    (vote_majority silent ≡ none) ↔ All HasEmptyQueue silent.ospf6_siblings
vote_majority-none_iff_example = vote_majority-none_iff silent

agreed : All (λ t. offers msg_a t ≡ true) (sib (msg_a ∷ []) ∷ sib (msg_a ∷ []) ∷ [])
unfolding rfpbuf_equal
agreed = (refl, (refl, tt))

vote_majority-blocked_example :
    (3 < 2 * supporters msg_a blocked.ospf6_siblings) × (vote_majority blocked ≡ some blocked)
vote_majority-blocked_example =
    vote_majority-blocked blocked (with_queues-Inv (msg_b ∷ []) (msg_a ∷ []) (msg_a ∷ [])) refl
      (sib (msg_b ∷ [])) (sib (msg_a ∷ []) ∷ sib (msg_a ∷ []) ∷ []) msg_b msg_a [] refl refl
      (λ e. cc) agreed refl (omega arith)

may_vote_iff_example : (may_vote silent ≡ true) ↔ ((length silent.ospf6_siblings ≡ 3) × (0 < 3))
may_vote_iff_example = may_vote_iff silent refl

vote_majority_lem_example :
    vote_majority agreeing
    ≡ some (
        if exceeds_half (supporters msg_a agreeing.ospf6_siblings) (num_hosts agreeing)
        then accept_vote agreeing msg_a
        else agreeing)
vote_majority_lem_example =
    vote_majority_lem agreeing [] (sib (msg_b ∷ []) ∷ sib (msg_a ∷ []) ∷ []) (sib (msg_a ∷ []))
      msg_a [] (with_queues-Inv (msg_a ∷ []) (msg_b ∷ []) (msg_a ∷ [])) refl tt refl

history-init-Inv_example : Holds Inv (
    history
      (sib_router_init [] [] 3 voter_all)
      (accepts_ospf6 true ∷ runs (ospf6_sib 0) [] true ∷ runs (ospf6_sib 0) [] false ∷ []))
history-init-Inv_example =
    history-init-Inv [] [] 3 voter_all
      (accepts_ospf6 true ∷ runs (ospf6_sib 0) [] true ∷ runs (ospf6_sib 0) [] false ∷ [])

-- A features request with transaction id 5.
abbrev features_5 : Rfpbuf
features_5 = 1 ∷ 8 ∷ 0 ∷ 8 ∷ 0 ∷ 0 ∷ 0 ∷ 5 ∷ []

abbrev joining : SibRouter
joining = record (sib []) { state = connected }

process_packet-Moves_example :
    Holds
      (Moves (ospf6_sib 1) joining features_5 (with_queues (sib [] ∷ joining ∷ [])))
      (process_packet (with_queues (sib [] ∷ joining ∷ [])) (ospf6_sib 1) features_5)
unfolding get_sib
process_packet-Moves_example =
    process_packet-Moves (with_queues (sib [] ∷ joining ∷ [])) (ospf6_sib 1) joining features_5 refl

-- The sender is not the leader.
abbrev follows : Rfpbuf
follows = 1 ∷ 25 ∷ 0 ∷ 9 ∷ 0 ∷ 0 ∷ 0 ∷ 5 ∷ 0 ∷ []

never : (false ≡ true) → ⊥
never h = cc

-- A data base that is out of reach: no read and no write succeeds.
abbrev out_of_reach : ConsistentRiak ℕ
out_of_reach = record {
  riack_get_ext = λ s t b k. none;
  riack_put_ext = λ s t b k d. (s, false);
  get_ext-put_ext = λ s t b k d h. absurd (never h);
}

out_of_reach-IsReliable : IsReliable out_of_reach
unfolding Ids.db_set_egress_xid Ids.read_failed
out_of_reach-IsReliable s xid e = cc

process_packet_stored-none_iff_example :
    (process_packet_stored out_of_reach 0 silent (ospf6_sib 0) follows ≡ none) ↔ (
      (rh_type follows ≡ some redistribute_leader_elect)
      × ((get_or follows header_size 0 == 1) ≡ false)
      × ((l : SibRouter)
          → (silent.leader_sibling >>= get_sib silent) ≡ some l
          → is_disconnected l.state ≡ true))
unfolding get_sib
process_packet_stored-none_iff_example =
    process_packet_stored-none_iff out_of_reach out_of_reach-IsReliable 0 silent 0 (sib []) follows
      refl

accept_ospf6-none_iff_example :
    (accept_ospf6 silent true ≡ none)
    ↔ (All IsConnected silent.ospf6_siblings × ((9 ≤ 3) ⊎ (silent.n_ospf6_siblings_routing ≡ 3)))
accept_ospf6-none_iff_example = accept_ospf6-none_iff silent true
