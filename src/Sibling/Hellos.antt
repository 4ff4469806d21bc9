-- ===== src/Sibling/Hellos.antt =====
-- The hellos that ospf6-sibling/sibling_ctrl.c schedules, under its elections.
use harry.Base.{
  ℕ, suc, ◌+◌, ◌≡◌, refl, sym, ap, ◌∙◌, List, [], ◌∷◌, ◌++◌, Bool, true, false, ◌==◌, if◌then◌else◌,
  inl, inr, arith, Bool-cases, length, count_if, count_if-append,
}
use harry.Sibling.State.{
  Sibling, CtrlClient, SiblingCtrlState, sc_lead_elect_start, sc_lead_elect_compl,
  sc_all_int_up_lead_elect_start, sc_ready_to_send_lead_elect_start, sc_ready_to_send, Output,
  schedule_hello, Process, Sisis, emit, unlock_first_xid,
}
use harry.Sibling.Election.{elect_loop, all_id_valid}
use harry.Sibling.Ctrl.{
  hello_events, schedule_hellos_on_interfaces, first_completion, complete_from, lead_elect_compl,
  redistribute_msgs, id_msgs, send_ids, store_election, elected, ospf6_num_sibs, report_election,
  ospf6_leader_elect,
}

abbrev pub is_hello : Output → Bool
is_hello (schedule_hello i) = true
is_hello _ = false

-- The states that follow a completed election.
abbrev pub has_completed : SiblingCtrlState → Bool
has_completed sc_lead_elect_compl = true
has_completed sc_ready_to_send = true
has_completed sc_ready_to_send_lead_elect_start = true
has_completed _ = false

-- A completed election has scheduled the hellos, and they are scheduled for each client once, or not
-- at all.
pub record Inv (n : ℕ) (p : Process) : Type 0 where
  pub clients : length p.ctrl_clients ≡ n
  pub started : has_completed p.sc_state ≡ p.scheduled_hellos
  pub once : count_if is_hello p.out ≡ (if p.scheduled_hellos then n else 0)

count-hello_events :
    (i : ℕ) (ks : List CtrlClient) → count_if is_hello (hello_events i ks) ≡ length ks
unfolding hello_events
count-hello_events i [] = refl
count-hello_events i (k ∷ ks) = omega (arith, count-hello_events (suc i) ks)

count-redistribute_msgs :
    (i : ℕ) (b : Bool) (ks : List CtrlClient) → count_if is_hello (redistribute_msgs i b ks) ≡ 0
unfolding redistribute_msgs
count-redistribute_msgs i b [] = refl
count-redistribute_msgs i b (k ∷ ks) = ground (arith, count-redistribute_msgs (suc i) b ks)

count-id_msgs : (own : Sibling) (ss : List Sibling) → count_if is_hello (id_msgs own ss) ≡ 0
unfolding id_msgs
count-id_msgs own [] = refl
count-id_msgs own (s ∷ ss) = ground (arith, count-id_msgs own ss)

-- Output without hellos keeps the invariant.
pub emit-Inv :
    (n : ℕ) (p : Process) (os : List Output)
    → count_if is_hello os ≡ 0
    → Inv n p
    → Inv n (emit p os)
emit-Inv n p os h v = record {
  clients = v.clients;
  started = v.started;
  once = omega (arith, v.once, h, count_if-append is_hello p.out os);
}

-- Where a first election completes.
schedule-Inv :
    (n : ℕ) (p : Process)
    → length p.ctrl_clients ≡ n
    → has_completed p.sc_state ≡ true
    → count_if is_hello p.out ≡ (if p.scheduled_hellos then n else 0)
    → Inv n (schedule_hellos_on_interfaces p)
unfolding schedule_hellos_on_interfaces
schedule-Inv n p k d o = elim (Bool-cases p.scheduled_hellos) [
  | inl e ↦ simp e (record { clients = k; started = d ∙ sym e; once = o })
  | inr e ↦ simp e (record {
    clients = k;
    started = d;
    once = omega (arith, count-append, count-hello_events 0 p.ctrl_clients, k, rw e at o);
  })
]
  where
    count-append :
        count_if is_hello (p.out ++ hello_events 0 p.ctrl_clients)
        ≡ count_if is_hello p.out + count_if is_hello (hello_events 0 p.ctrl_clients)
    count-append = count_if-append is_hello p.out (hello_events 0 p.ctrl_clients)

-- A change of the state that keeps whether an election has completed.
pub state-Inv :
    (n : ℕ) (p : Process) (s : SiblingCtrlState)
    → has_completed s ≡ has_completed p.sc_state
    → Inv n p
    → Inv n (record p { sc_state = s })
state-Inv n p s h v = record { clients = v.clients; started = h ∙ v.started; once = v.once }

first_completion-Inv :
    (n : ℕ) (p : Process) (s : SiblingCtrlState)
    → has_completed s ≡ true
    → Inv n p
    → Inv n (first_completion p s)
unfolding first_completion
first_completion-Inv n p s h v = by_mode p.restart_mode
  where
    marked : Process
    marked = record p {
      sc_state = s;
      restarted_first_egress_not_sent = true;
      out = p.out ++ unlock_first_xid ∷ [];
    }

    by_mode :
        (restart : Bool)
        → Inv n (
            if restart
            then schedule_hellos_on_interfaces marked
            else schedule_hellos_on_interfaces (record p { sc_state = s }))
    by_mode true =
        schedule-Inv n marked v.clients h
          (omega (arith, v.once, count_if-append is_hello p.out (unlock_first_xid ∷ [])))
    by_mode false = schedule-Inv n (record p { sc_state = s }) v.clients h v.once

pub lead_elect_compl-Inv : (n : ℕ) (p : Process) → Inv n p → Inv n (lead_elect_compl p)
unfolding lead_elect_compl
lead_elect_compl-Inv n p v = from p.sc_state refl
  where
    from : (s : SiblingCtrlState) → p.sc_state ≡ s → Inv n (complete_from s p)
    from sc_lead_elect_start e =
        unfold complete_from in first_completion-Inv n p sc_lead_elect_compl refl v
    from sc_all_int_up_lead_elect_start e =
        unfold complete_from in first_completion-Inv n p sc_ready_to_send refl v
    from sc_ready_to_send_lead_elect_start e =
        unfold complete_from in state-Inv n p sc_ready_to_send (sym (ap has_completed e)) v
    from _ e = unfold complete_from in v

pub send_ids-Inv : (n : ℕ) (p : Process) → Inv n p → Inv n (send_ids p)
unfolding send_ids
send_ids-Inv n p v =
    emit-Inv n p _
      (count_if-append is_hello (id_msgs p.own_replica p.replicas) _
        ∙ omega (
          arith,
          count-id_msgs p.own_replica p.replicas,
          count-redistribute_msgs 0 p.own_replica.leader p.ctrl_clients,
        ))
      v

store_election-Inv :
    (n : ℕ) (p : Process) (r : List Sibling × Bool) → Inv n p → Inv n (store_election p r)
unfolding store_election
store_election-Inv n p r v = record { clients = v.clients; started = v.started; once = v.once }

pub ospf6_leader_elect-Inv :
    (n : ℕ) (env : Sisis) (p : Process) → Inv n p → Inv n (ospf6_leader_elect env p)
unfolding ospf6_leader_elect elected
ospf6_leader_elect-Inv n env p v = by_number (length env.sibling_addrs == ospf6_num_sibs)
  where
    stored : Inv n (elected env p)
    stored =
        store_election-Inv n p (elect_loop env p.own_replica env.sibling_addrs p.replicas true) v

    reported :
        (valid : Bool) → Inv n (if valid then lead_elect_compl (elected env p) else elected env p)
    reported true = lead_elect_compl-Inv n (elected env p) stored
    reported false = stored

    by_number :
        (full : Bool) → Inv n (if full then send_ids (report_election (elected env p)) else p)
    by_number true =
        send_ids-Inv n (report_election (elected env p))
          (unfold report_election in reported (all_id_valid (elected env p).replicas))
    by_number false = v
