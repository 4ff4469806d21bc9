-- ===== src/Controller.antt =====
-- The controller's side of the voter: controller/sib_router.c.
pub mod State
pub mod Transition
pub mod Vote
pub mod Packet
pub mod Life
pub mod Invariant
pub mod Preservation
pub mod Live
pub mod Handlers
pub mod Runs
pub mod Arrivals
pub mod Events
pub mod Agreement
pub mod Majority
pub mod Sequence
pub mod Keeps
pub mod Persisted
pub mod Faults
pub mod Slots
pub mod Accept
pub mod Moves
pub mod Tests
