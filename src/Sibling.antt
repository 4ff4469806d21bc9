-- ===== src/Sibling.antt =====
-- One replica of the OSPF6 process: ospf6-sibling/ospf6_replica.c (the other replicas and the
-- election), ospf6-sibling/sibling_ctrl.c (its state machine), ospf6-sibling/ctrl_client.c (its
-- connections to the controllers).
pub mod State
pub mod Election
pub mod Ctrl
pub mod Client
pub mod Oldest
pub mod Leader
pub mod Hellos
pub mod Once
pub mod Runs
pub mod Tests
