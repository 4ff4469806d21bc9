-- ===== src/Sibling/State.antt =====
-- struct sibling and struct ospf6_replica (ospf6-sibling/ospf6_replica.h), struct ctrl_client
-- (ospf6-sibling/ctrl_client.h), and the file-level state of ospf6-sibling/sibling_ctrl.c.
use harry.Base.{ℕ, List, Bool, ◌++◌}
use harry.Message.{Rfpbuf}

-- struct sibling. An address is the number that its 128 bits stand for.
pub record Sibling : Type 0 where
  pub sibling_addr : ℕ
  pub leader : Bool
  pub valid : Bool
  pub id_valid : Bool
  pub id : ℕ

-- enum ctrl_client_state.
pub data CtrlClientState : Type 0 where
  ctrl_connecting ctrl_sent_hello ctrl_rcvd_hello : CtrlClientState
  ctrl_interface_up ctrl_lead_elect_rcvd ctrl_connected : CtrlClientState

-- struct ctrl_client, less its threads, buffers and interfaces.
pub record CtrlClient : Type 0 where
  pub sock_open : Bool
  pub current_xid : ℕ
  pub fail : ℕ
  pub state : CtrlClientState
  pub hostnum : ℕ

-- enum sibling_ctrl_state.
pub data SiblingCtrlState : Type 0 where
  sc_init sc_lead_elect_start sc_all_int_up sc_lead_elect_compl : SiblingCtrlState
  sc_all_int_up_lead_elect_start sc_ready_to_send_lead_elect_start : SiblingCtrlState
  sc_ready_to_send : SiblingCtrlState

-- enum sc_state_update_req.
pub data StateUpdateReq : Type 0 where
  scg_ctrl_int_up_req scg_ctrl_lead_elect_rcvd_req scg_lead_elect_compl : StateUpdateReq

-- What the process sends, schedules or hands to the OSPF6 code. Controllers are numbered by their
-- place among the clients, replicas by their addresses.
pub data Output : Type 0 where
  ctrl_send : ℕ → Rfpbuf → Output
  replica_send : ℕ → ℕ → Bool → Output
  schedule_hello schedule_connected : ℕ → Output
  unlock_first_xid : Output
  features_reply address_add routes_reply : ℕ → Rfpbuf → Output
  ospf6_receive : ℕ → Rfpbuf → Output

pub record Process : Type 0 where
  pub own_replica : Sibling
  pub replicas : List Sibling
  pub ctrl_clients : List CtrlClient
  pub sc_state : SiblingCtrlState
  pub scheduled_hellos : Bool
  pub restart_mode : Bool
  pub restarted_first_egress_not_sent : Bool
  pub restart_msg_queue : List Rfpbuf
  pub debug_replica : Bool
  pub out : List Output

-- The SIS-IS library: the addresses of the OSPF6 siblings in the kernel's routes, and the timestamp
-- that an address contains.
pub record Sisis : Type 0 where
  pub sibling_addrs : List ℕ
  pub timestamp : ℕ → ℕ

abbrev pub emit : Process → List Output → Process
emit p os = record p { out = p.out ++ os }
