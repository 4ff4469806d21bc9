-- ===== src/Sibling/Tests.antt =====
-- The theorems on the replicas at concrete replicas.
use harry.Base.{
  ℕ, ◌≡◌, refl, ◌∙◌, ◌==◌, List, [], ◌∷◌, some, Bool, true, false, ◌&&◌, inl, arith, count_if,
  if◌then◌else◌,
}
use harry.Sibling.State.{Sibling, sc_init, Process, Sisis}
use harry.Sibling.Election.{elect_loop, find_replica_from_addr}
use harry.Sibling.Ctrl.{ospf6_leader_elect, fill_id, announced_id}
use harry.Sibling.Client.{ctrl_client_init, Event, starts, reads, hears, history}
use harry.Sibling.Oldest.{is_oldest, elect_loop-is_oldest}
use harry.Sibling.Leader.{
  AreRivals, ospf6_leader_elect-leader, ospf6_leader_elect_unique, fill_id-tie, fill_id-tie_equal,
}
use harry.Sibling.Hellos.{is_hello, has_completed}
use harry.Sibling.Runs.{history-hellos}

-- Nine replicas; the one at address 1 is older than the others, which are of one age.
abbrev env : Sisis
env = record {
  sibling_addrs = 1 ∷ 2 ∷ 3 ∷ 4 ∷ 5 ∷ 6 ∷ 7 ∷ 8 ∷ 9 ∷ [];
  timestamp = λ addr. if addr == 1 then 10 else 20;
}

abbrev replica : ℕ → Bool → ℕ → Sibling
replica addr leads id = record {
  sibling_addr = addr;
  leader = leads;
  valid = true;
  id_valid = true;
  id = id;
}

abbrev process : Sibling → List Sibling → Process
process own others = record {
  own_replica = own;
  replicas = others;
  ctrl_clients = ctrl_client_init 1 ∷ ctrl_client_init 2 ∷ [];
  sc_state = sc_init;
  scheduled_hellos = false;
  restart_mode = false;
  restarted_first_egress_not_sent = false;
  restart_msg_queue = [];
  debug_replica = true;
  out = [];
}

abbrev first : Process
first = process (replica 1 false 30) (replica 2 false 20 ∷ [])

abbrev second : Process
second = process (replica 2 false 20) (replica 1 false 30 ∷ [])

rivals : AreRivals env first second
rivals = record {
  p_listed = (0, refl);
  q_listed = (1, refl);
  apart = λ e. cc;
  ordered = inl (λ e. cc);
}

elect_loop-is_oldest_example :
    (elect_loop env first.own_replica env.sibling_addrs first.replicas true).1
    ≡ (true && is_oldest env first.own_replica first.replicas env.sibling_addrs)
elect_loop-is_oldest_example =
    elect_loop-is_oldest env first.own_replica env.sibling_addrs first.replicas true

ospf6_leader_elect-leader_example :
    (ospf6_leader_elect env first).own_replica.leader
    ≡ (if true then is_oldest env first.own_replica first.replicas env.sibling_addrs else false)
ospf6_leader_elect-leader_example = ospf6_leader_elect-leader env first refl

first_leads : is_oldest env first.own_replica first.replicas env.sibling_addrs ≡ true
unfolding find_replica_from_addr
first_leads = refl

ospf6_leader_elect_unique_example : (ospf6_leader_elect env second).own_replica.leader ≡ false
ospf6_leader_elect_unique_example =
    ospf6_leader_elect_unique env first second refl refl refl rivals
      (ospf6_leader_elect-leader env first refl ∙ first_leads)

abbrev leader_at : ℕ → ℕ → ℕ → Process
leader_at addr id other = process (replica addr true id) (replica other true 0 ∷ [])

found : (id : ℕ) → find_replica_from_addr 2 (leader_at 1 id 2).replicas ≡ some (replica 2 true 0)
unfolding find_replica_from_addr
found id = refl

found_other :
    (id : ℕ) → find_replica_from_addr 1 (leader_at 2 id 1).replicas ≡ some (replica 1 true 0)
unfolding find_replica_from_addr
found_other id = refl

fill_id-tie_example :
    let p = leader_at 1 20 2 in
    let q = leader_at 2 30 1 in
    ((fill_id p 2 true (announced_id q.own_replica)).own_replica.leader ≡ true)
    × ((fill_id q 1 true (announced_id p.own_replica)).own_replica.leader ≡ false)
fill_id-tie_example =
    fill_id-tie (leader_at 1 20 2) (leader_at 2 30 1) (replica 2 true 0) (replica 1 true 0)
      (found 20) (found_other 30) refl refl (omega arith) (omega arith)

fill_id-tie_equal_example :
    let p = leader_at 1 20 2 in
    let q = leader_at 2 20 1 in
    ((fill_id p 2 true (announced_id q.own_replica)).own_replica.leader ≡ false)
    × ((fill_id q 1 true (announced_id p.own_replica)).own_replica.leader ≡ false)
fill_id-tie_equal_example =
    fill_id-tie_equal (leader_at 1 20 2) (leader_at 2 20 1) (replica 2 true 0) (replica 1 true 0)
      (found 20) (found_other 20) refl refl refl (omega arith)

abbrev some_events : List Event
some_events =
    starts 0 true
    ∷ starts 1 true
    ∷ reads 0 (1 ∷ 0 ∷ 0 ∷ 8 ∷ 0 ∷ 0 ∷ 0 ∷ 0 ∷ [])
    ∷ hears 2 true 7
    ∷ []

history-hellos_example :
    let q = history env first some_events in
    count_if is_hello q.out ≡ (if has_completed q.sc_state then 2 else 0)
history-hellos_example = history-hellos env first some_events refl refl refl
