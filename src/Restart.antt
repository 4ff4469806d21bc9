-- ===== src/Restart.antt =====
-- The restart of a replica and its catching up: ospf6-sibling/ospf6_restart.c.
pub mod Replay
mod Slowness
mod Loops
mod Continuity
mod Catchup
mod Tests
