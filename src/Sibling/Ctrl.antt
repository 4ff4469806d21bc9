-- ===== src/Sibling/Ctrl.antt =====
-- The state machine of ospf6-sibling/sibling_ctrl.c, with the election of
-- ospf6-sibling/ospf6_replica.c that it starts and that reports back to it.
use harry.Base.{
  ℕ, suc, ◌%◌, List, [], ◌∷◌, ◌++◌, Option, none, some, Bool, true, false, not, ◌&&◌, ◌||◌, ◌==◌,
  ltb, if◌then◌else◌, length, flag,
}
use harry.Message.{
  Rfpbuf, rfpmsg_update_length, routeflow_alloc_xid, redistribute_leader_elect, rfp10_version,
  header_size, htonl,
}
use harry.Sibling.State.{
  Sibling, CtrlClientState, ctrl_interface_up, ctrl_lead_elect_rcvd, ctrl_connected, CtrlClient,
  SiblingCtrlState, sc_init, sc_lead_elect_start, sc_all_int_up, sc_lead_elect_compl,
  sc_all_int_up_lead_elect_start, sc_ready_to_send_lead_elect_start, sc_ready_to_send,
  StateUpdateReq, scg_ctrl_int_up_req, scg_ctrl_lead_elect_rcvd_req, scg_lead_elect_compl, Output,
  ctrl_send, replica_send, schedule_hello, unlock_first_xid, Process, Sisis, emit,
}
use harry.Sibling.Election.{
  create_replica, find_replica_from_addr, remove_invalid, write_replica, all_id_valid, elect_loop,
}

abbrev pub interface_is_up : CtrlClientState → Bool
interface_is_up ctrl_interface_up = true
interface_is_up ctrl_connected = true
interface_is_up _ = false

abbrev pub lead_elect_is_rcvd : CtrlClientState → Bool
lead_elect_is_rcvd ctrl_lead_elect_rcvd = true
lead_elect_is_rcvd ctrl_connected = true
lead_elect_is_rcvd _ = false

unfoldable pub all_clients : (CtrlClientState → Bool) → List CtrlClient → Bool
all_clients test [] = true
all_clients test (k ∷ ks) = test k.state && all_clients test ks

unfoldable pub check_all_interface_up : Process → Bool
unfolding all_clients
check_all_interface_up p = all_clients interface_is_up p.ctrl_clients

unfoldable pub check_all_rcvd_lead_elect : Process → Bool
unfolding all_clients
check_all_rcvd_lead_elect p = all_clients lead_elect_is_rcvd p.ctrl_clients

unfoldable pub hello_events : ℕ → List CtrlClient → List Output
hello_events i [] = []
hello_events i (k ∷ ks) = schedule_hello i ∷ hello_events (suc i) ks

unfoldable pub schedule_hellos_on_interfaces : Process → Process
unfolding hello_events
schedule_hellos_on_interfaces p =
    if p.scheduled_hellos
    then p
    else record p { scheduled_hellos = true; out = p.out ++ hello_events 0 p.ctrl_clients }

abbrev pub past_start : SiblingCtrlState → Bool
past_start sc_lead_elect_start = true
past_start sc_all_int_up_lead_elect_start = true
past_start sc_ready_to_send_lead_elect_start = true
past_start _ = false

unfoldable pub past_leader_elect_start : Process → Bool
past_leader_elect_start p = past_start p.sc_state

-- The first completed election: in restart mode the first egress message is also marked.
unfoldable pub first_completion : Process → SiblingCtrlState → Process
unfolding schedule_hellos_on_interfaces
first_completion p next =
    if p.restart_mode
    then schedule_hellos_on_interfaces (record p {
      sc_state = next;
      restarted_first_egress_not_sent = true;
      out = p.out ++ unlock_first_xid ∷ [];
    })
    else schedule_hellos_on_interfaces (record p { sc_state = next })

-- sibling_ctrl_update_state(SCG_LEAD_ELECT_COMPL).
unfoldable pub complete_from : SiblingCtrlState → Process → Process
unfolding first_completion
complete_from sc_lead_elect_start p = first_completion p sc_lead_elect_compl
complete_from sc_all_int_up_lead_elect_start p = first_completion p sc_ready_to_send
complete_from sc_ready_to_send_lead_elect_start p = record p { sc_state = sc_ready_to_send }
complete_from _ p = p

unfoldable pub lead_elect_compl : Process → Process
unfolding complete_from
lead_elect_compl p = complete_from p.sc_state p

-- ctrl_send_message of a client: without a socket nothing is sent.
abbrev pub sent_on : ℕ → CtrlClient → Rfpbuf → List Output
sent_on i k msg = if k.sock_open then ctrl_send i msg ∷ [] else []

-- The message of ctrl_client_redistribute_leader_elect; the transaction id is not increased.
unfoldable pub leader_msg : CtrlClient → Bool → Rfpbuf
leader_msg k leader = rfpmsg_update_length (
    routeflow_alloc_xid redistribute_leader_elect rfp10_version (htonl k.current_xid) header_size
    ++ flag leader ∷ [])

-- sibling_ctrl_redistribute_leader_elect.
unfoldable pub redistribute_msgs : ℕ → Bool → List CtrlClient → List Output
unfolding leader_msg
redistribute_msgs i leader [] = []
redistribute_msgs i leader (k ∷ ks) =
    sent_on i k (leader_msg k leader) ++ redistribute_msgs (suc i) leader ks

-- The id as it arrives: htons keeps 16 bits of it.
unfoldable pub announced_id : Sibling → ℕ
announced_id own = own.id % 65536

-- The messages of send_ids to the valid replicas.
unfoldable pub id_msgs : Sibling → List Sibling → List Output
id_msgs own [] = []
id_msgs own (s ∷ ss) =
    if s.valid
    then replica_send s.sibling_addr (announced_id own) own.leader ∷ id_msgs own ss
    else id_msgs own ss

unfoldable pub send_ids : Process → Process
unfolding id_msgs redistribute_msgs
send_ids p =
    emit p
      (id_msgs p.own_replica p.replicas ++ redistribute_msgs 0 p.own_replica.leader p.ctrl_clients)

abbrev pub ospf6_num_sibs : ℕ
ospf6_num_sibs = 9

-- The result of the loop is stored only where the replica's debug messages are on.
unfoldable pub store_election : Process → List Sibling × Bool → Process
store_election p (ss, oldest) = record p {
  replicas = ss;
  own_replica =
      if p.debug_replica then record (p.own_replica) { leader = oldest } else p.own_replica;
}

unfoldable pub elected : Sisis → Process → Process
unfolding elect_loop store_election
elected env p = store_election p (elect_loop env p.own_replica env.sibling_addrs p.replicas true)

unfoldable pub report_election : Process → Process
unfolding lead_elect_compl all_id_valid
report_election p = if all_id_valid p.replicas then lead_elect_compl p else p

-- ospf6_leader_elect.
unfoldable pub ospf6_leader_elect : Sisis → Process → Process
unfolding elected report_election send_ids
ospf6_leader_elect env p =
    if length env.sibling_addrs == ospf6_num_sibs
    then send_ids (report_election (elected env p))
    else p

-- sibling_ctrl_update_state(SCG_CTRL_INT_UP_REQ).
unfoldable pub int_up_from : SiblingCtrlState → SiblingCtrlState
int_up_from sc_init = sc_all_int_up
int_up_from sc_lead_elect_start = sc_all_int_up_lead_elect_start
int_up_from sc_lead_elect_compl = sc_ready_to_send
int_up_from s = s

-- sibling_ctrl_update_state(SCG_CTRL_LEAD_ELECT_RCVD_REQ).
unfoldable pub lead_elect_rcvd_from : SiblingCtrlState → Sisis → Process → Process
unfolding check_all_rcvd_lead_elect check_all_interface_up ospf6_leader_elect
lead_elect_rcvd_from sc_init env p =
    if check_all_rcvd_lead_elect p
    then ospf6_leader_elect env (record p { sc_state = sc_lead_elect_start })
    else p
lead_elect_rcvd_from sc_all_int_up env p =
    if check_all_rcvd_lead_elect p
    then ospf6_leader_elect env (record p { sc_state = sc_all_int_up_lead_elect_start })
    else p
lead_elect_rcvd_from sc_ready_to_send env p =
    if check_all_interface_up p
    then ospf6_leader_elect env (record p { sc_state = sc_ready_to_send_lead_elect_start })
    else p
lead_elect_rcvd_from _ env p = p

unfoldable pub sibling_ctrl_update_state : StateUpdateReq → Sisis → Process → Process
unfolding int_up_from lead_elect_rcvd_from lead_elect_compl check_all_interface_up
sibling_ctrl_update_state scg_ctrl_int_up_req env p =
    if check_all_interface_up p then record p { sc_state = int_up_from p.sc_state } else p
sibling_ctrl_update_state scg_ctrl_lead_elect_rcvd_req env p = lead_elect_rcvd_from p.sc_state env p
sibling_ctrl_update_state scg_lead_elect_compl env p = lead_elect_compl p

-- fill_id on the replica that the sender is: its data, and the tie-break between two leaders.
unfoldable pub filled : Sibling → Bool → ℕ → Sibling → Sibling
filled own sender_leads id s = record s {
  id = id;
  id_valid = true;
  leader = sender_leads && not (own.leader && ltb own.id id);
}

unfoldable pub own_after_tie : Sibling → Bool → ℕ → Sibling
own_after_tie own sender_leads id = record own {
  leader = own.leader && (not sender_leads || ltb own.id id);
}

-- An unknown sender is added only where debug messages are on, and then without a valid id.
unfoldable pub add_sender : Process → ℕ → Bool → ℕ → List Sibling → List Sibling
unfolding create_replica
add_sender p addr sender_leads id ss =
    if p.debug_replica
    then ss ++ record (create_replica addr) { leader = sender_leads; id = id } ∷ []
    else ss

unfoldable pub note_sender : Option Sibling → Process → ℕ → Bool → ℕ → Process
unfolding filled own_after_tie add_sender write_replica remove_invalid
note_sender (some s) p addr sender_leads id = record p {
  replicas =
      write_replica addr (filled p.own_replica sender_leads id) (remove_invalid addr p.replicas);
  own_replica = own_after_tie p.own_replica sender_leads id;
}
note_sender none p addr sender_leads id = record p {
  replicas = add_sender p addr sender_leads id (remove_invalid addr p.replicas);
}

unfoldable pub report_ids : Process → Process
unfolding lead_elect_compl all_id_valid past_leader_elect_start
report_ids p =
    if all_id_valid p.replicas && past_leader_elect_start p then lead_elect_compl p else p

-- fill_id, for a message of a replica with the flag 0 or 1.
unfoldable pub fill_id : Process → ℕ → Bool → ℕ → Process
unfolding note_sender report_ids find_replica_from_addr
fill_id p addr sender_leads id =
    report_ids (note_sender (find_replica_from_addr addr p.replicas) p addr sender_leads id)
