-- ===== src/Sibling/Once.antt =====
-- The hellos under the other steps of the state machine, and under single messages.
use harry.Base.{
  ℕ, ◌≡◌, refl, sym, ap, ◌∙◌, Option, none, some, Bool, true, false, ◌&&◌, if◌then◌else◌, arith,
  count_if, length-set,
}
use harry.Message.{Rfpbuf}
use harry.Sibling.State.{
  Sibling, CtrlClient, CtrlClientState, SiblingCtrlState, sc_init, sc_lead_elect_start,
  sc_all_int_up, sc_lead_elect_compl, sc_all_int_up_lead_elect_start,
  sc_ready_to_send_lead_elect_start, sc_ready_to_send, Process, Sisis, emit, StateUpdateReq,
  scg_ctrl_int_up_req, scg_ctrl_lead_elect_rcvd_req, scg_lead_elect_compl,
}
use harry.Sibling.Election.{find_replica_from_addr, all_id_valid}
use harry.Sibling.Ctrl.{
  lead_elect_compl, ospf6_leader_elect, int_up_from, lead_elect_rcvd_from,
  sibling_ctrl_update_state, note_sender, report_ids, fill_id, check_all_interface_up,
  check_all_rcvd_lead_elect, sent_on, past_leader_elect_start,
}
use harry.Sibling.Client.{
  put_client, client_transition, report, apply_transition, ctrl_client_state_transition, next_xid,
  send_numbered,
}
use harry.Sibling.Hellos.{
  is_hello, has_completed, Inv, emit-Inv, state-Inv, lead_elect_compl-Inv, ospf6_leader_elect-Inv,
}

completed-int_up_from : (s : SiblingCtrlState) → has_completed (int_up_from s) ≡ has_completed s
unfolding int_up_from
completed-int_up_from sc_init = refl
completed-int_up_from sc_lead_elect_start = refl
completed-int_up_from sc_lead_elect_compl = refl
completed-int_up_from _ = refl

module _ (n : ℕ) (env : Sisis) where
  -- An election begins.
  begins-Inv :
      (p : Process) (s : SiblingCtrlState) (ready : Bool)
      → has_completed s ≡ has_completed p.sc_state
      → Inv n p
      → Inv n (if ready then ospf6_leader_elect env (record p { sc_state = s }) else p)
  begins-Inv p s true h v =
      ospf6_leader_elect-Inv n env (record p { sc_state = s }) (state-Inv n p s h v)
  begins-Inv p s false h v = v

  rcvd_from-Inv :
      (p : Process) (s : SiblingCtrlState)
      → p.sc_state ≡ s
      → Inv n p
      → Inv n (lead_elect_rcvd_from s env p)
  unfolding lead_elect_rcvd_from
  rcvd_from-Inv p sc_init e v =
      begins-Inv p sc_lead_elect_start (check_all_rcvd_lead_elect p) (sym (ap has_completed e)) v
  rcvd_from-Inv p sc_all_int_up e v =
      begins-Inv p sc_all_int_up_lead_elect_start (check_all_rcvd_lead_elect p)
        (sym (ap has_completed e)) v
  rcvd_from-Inv p sc_ready_to_send e v =
      begins-Inv p sc_ready_to_send_lead_elect_start (check_all_interface_up p)
        (sym (ap has_completed e)) v
  rcvd_from-Inv p _ e v = v

  update_state-Inv :
      (req : StateUpdateReq) (p : Process) → Inv n p → Inv n (sibling_ctrl_update_state req env p)
  unfolding sibling_ctrl_update_state
  update_state-Inv scg_ctrl_int_up_req p v = up (check_all_interface_up p)
    where
      up : (b : Bool) → Inv n (if b then record p { sc_state = int_up_from p.sc_state } else p)
      up true = state-Inv n p (int_up_from p.sc_state) (completed-int_up_from p.sc_state) v
      up false = v
  update_state-Inv scg_ctrl_lead_elect_rcvd_req p v = rcvd_from-Inv p p.sc_state refl v
  update_state-Inv scg_lead_elect_compl p v = lead_elect_compl-Inv n p v

  note_sender-Inv :
      (o : Option Sibling) (p : Process) (addr : ℕ) (leads : Bool) (id : ℕ)
      → Inv n p
      → Inv n (note_sender o p addr leads id)
  unfolding note_sender
  note_sender-Inv (some s) p addr leads id v = record {
    clients = v.clients;
    started = v.started;
    once = v.once;
  }
  note_sender-Inv none p addr leads id v = record {
    clients = v.clients;
    started = v.started;
    once = v.once;
  }

  pub fill_id-Inv :
      (p : Process) (addr : ℕ) (leads : Bool) (id : ℕ) → Inv n p → Inv n (fill_id p addr leads id)
  unfolding fill_id report_ids
  fill_id-Inv p addr leads id v =
      completes (all_id_valid noted.replicas && past_leader_elect_start noted)
    where
      noted : Process
      noted = note_sender (find_replica_from_addr addr p.replicas) p addr leads id

      kept : Inv n noted
      kept = note_sender-Inv (find_replica_from_addr addr p.replicas) p addr leads id v

      completes : (b : Bool) → Inv n (if b then lead_elect_compl noted else noted)
      completes true = lead_elect_compl-Inv n noted kept
      completes false = kept

  pub put_client-Inv : (p : Process) (i : ℕ) (k : CtrlClient) → Inv n p → Inv n (put_client p i k)
  unfolding put_client
  put_client-Inv p i k v = record {
    clients = length-set p.ctrl_clients i k ∙ v.clients;
    started = v.started;
    once = v.once;
  }

  count-sent_on : (i : ℕ) (k : CtrlClient) (msg : Rfpbuf) → count_if is_hello (sent_on i k msg) ≡ 0
  count-sent_on i k msg = ground arith

  pub sent-Inv :
      (p : Process) (i : ℕ) (k : CtrlClient) (msg : Rfpbuf)
      → Inv n p
      → Inv n (emit p (sent_on i k msg))
  sent-Inv p i k msg v = emit-Inv n p _ (count-sent_on i k msg) v

  pub send_numbered-Inv :
      (p : Process) (i : ℕ) (k : CtrlClient) (msg : Rfpbuf)
      → Inv n p
      → Inv n (send_numbered p i k msg)
  unfolding send_numbered
  send_numbered-Inv p i k msg v =
      put_client-Inv (emit p (sent_on i k msg)) i (next_xid k) (sent-Inv p i k msg v)

  report-Inv : (o : Option StateUpdateReq) (p : Process) → Inv n p → Inv n (report o env p)
  unfolding report
  report-Inv none p v = v
  report-Inv (some req) p v = update_state-Inv req p v

  apply_transition-Inv :
      (o : Option (CtrlClientState × Option StateUpdateReq)) (p : Process) (i : ℕ) (k : CtrlClient)
      → Inv n p
      → Inv n (apply_transition o env p i k)
  unfolding apply_transition
  apply_transition-Inv none p i k v = v
  apply_transition-Inv (some (new, req)) p i k v =
      report-Inv req (put_client p i (record k { state = new }))
        (put_client-Inv p i (record k { state = new }) v)

  pub transition-Inv :
      (p : Process) (i : ℕ) (k : CtrlClient) (new : CtrlClientState)
      → Inv n p
      → Inv n (ctrl_client_state_transition env p i k new)
  unfolding ctrl_client_state_transition
  transition-Inv p i k new v = apply_transition-Inv (client_transition k.state new) p i k v
