-- ===== src/Database.antt =====
-- The data base of the replicas: lib/db.c and ospf6-sibling/ospf6_db.c.
pub mod Decimal
pub mod Riak
pub mod Json
pub mod Ids
pub mod Checkpoint
pub mod Keys
pub mod Printed
pub mod Table
mod Lengths
pub mod HelloBounds
mod DbdescBounds
mod Allocation
pub mod Checkpointed
pub mod Sorted
mod Tests
