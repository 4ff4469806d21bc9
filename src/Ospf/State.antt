-- ===== src/Ospf/State.antt =====
-- The neighbors and interfaces of a replica (ospf6-sibling/ospf6_neighbor.h, ospf6_interface.h).
-- Router ids are in the order of the host.
use harry.Base.{ℕ, Bool, List, ◌==◌}
use harry.Ospf.Lsa.{Lsa}
use harry.Ospf.Lsdb.{Lsdb, Hook}

-- OSPF6_NEIGHBOR_DOWN to OSPF6_NEIGHBOR_FULL, in the order of their values.
pub data NeighborState : Type 0 where
  down attempt init twoway exstart exchange loading full : NeighborState

abbrev pub rank : NeighborState → ℕ
rank down = 1
rank attempt = 2
rank init = 3
rank twoway = 4
rank exstart = 5
rank exchange = 6
rank loading = 7
rank full = 8

abbrev pub is_state : NeighborState → NeighborState → Bool
is_state a b = rank a == rank b

-- The flags of `dbdesc_bits`.
pub record DbdescBits : Type 0 where
  pub msbit : Bool
  pub mbit : Bool
  pub ibit : Bool

-- struct ospf6_neighbor, less its name, timestamps and threads.
pub record Neighbor : Type 0 where
  pub state : NeighborState
  pub router_id : ℕ
  pub ifindex : ℕ
  pub priority : ℕ
  pub drouter : ℕ
  pub bdrouter : ℕ
  pub prev_drouter : ℕ
  pub prev_bdrouter : ℕ
  pub dbdesc_bits : DbdescBits
  pub summary_list : Lsdb
  pub request_list : Lsdb
  pub retrans_list : Lsdb
  pub dbdesc_list : Lsdb
  pub lsreq_list : Lsdb
  pub lsupdate_list : Lsdb
  pub lsack_list : Lsdb
  pub dbdesc_seqnum : ℕ
  pub options : List ℕ
  pub dbdesc_last : List ℕ

-- OSPF6_INTERFACE_NONE to OSPF6_INTERFACE_DR, in the order of their values.
pub data InterfaceState : Type 0 where
  if_none if_down if_loopback if_waiting if_pointtopoint if_drother if_bdr if_dr : InterfaceState

abbrev pub if_rank : InterfaceState → ℕ
if_rank if_none = 0
if_rank if_down = 1
if_rank if_loopback = 2
if_rank if_waiting = 3
if_rank if_pointtopoint = 4
if_rank if_drother = 5
if_rank if_bdr = 6
if_rank if_dr = 7

abbrev pub is_if_state : InterfaceState → InterfaceState → Bool
is_if_state a b = if_rank a == if_rank b

-- struct ospf6_interface, less its intervals and threads.
pub record Interface : Type 0 where
  pub neighbor_list : List Neighbor
  pub priority : ℕ
  pub drouter : ℕ
  pub bdrouter : ℕ
  pub state : InterfaceState
  pub lsdb : Lsdb
  pub lsupdate_list : Lsdb
  pub lsack_list : Lsdb
  pub ifmtu : ℕ

-- What the handlers schedule. A neighbor is named by its router id.
pub data Task : Type 0 where
  neighbor_change_event router_lsa intra_prefix_lsa : Task
  dbdesc_send cancel_dbdesc_send : Task
  inactivity_reset wait_timer_start ctrl_interface_up : Task
  adj_ok_event : ℕ → Task
  -- Of the neighbor with a router id: what is sent to it now, or unless it is scheduled already.
  lsupdate_send lsupdate_unless_pending lsupdate_after_rxmt lsack_unless_pending : ℕ → Task
  bad_lsreq_event : ℕ → Task
  dbdesc_send_newone lsreq_unless_pending lsreq_send seqnumber_mismatch_event : Task
  exchange_done_event loading_done_event dbdesc_after_rxmt lsreq_after_rxmt : Task
  -- Of an interface.
  lsupdate_interface lsack_after_delay lsack_interface : Task
  -- Of an LSA: its expiry, its refresh, and the hooks of the data base that it is added to.
  lsa_expires lsa_refresh : Lsa → Task
  lsdb_hooks : List Hook → Task

-- struct ospf6_area, and struct ospf6 with its areas.
pub record Area : Type 0 where
  pub is_stub : Bool
  pub lsdb : Lsdb
  pub if_list : List Interface

pub record Top : Type 0 where
  pub router_id : ℕ
  pub lsdb : Lsdb
  pub area_list : List Area

-- The places of an interface, and of a neighbor by its router id.
pub record IfPlace : Type 0 where
  pub area : ℕ
  pub index : ℕ

pub record Sender : Type 0 where
  pub at : IfPlace
  pub router_id : ℕ
