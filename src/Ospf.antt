-- ===== src/Ospf.antt =====
-- The OSPFv3 code of a replica: ospf6-sibling/ospf6_lsa.c, ospf6_lsdb.c, ospf6_neighbor.c,
-- ospf6_interface.c, ospf6_message.c and ospf6_flood.c.
pub mod Lsa
pub mod Lsdb
pub mod State
pub mod Neighbor
pub mod Election
pub mod Hello
pub mod Checksum
pub mod Flood
pub mod Receive
pub mod Packet
pub mod Describe
pub mod Request
pub mod Update
pub mod Wire
pub mod Send
pub mod Transmit
mod Recent
mod Stored
mod Seqnum
mod Protocol
mod Moves
mod Total
mod Ready
mod Heard
mod Flooded
mod Reached
mod Spread
mod Places
mod Kept
mod Installed
mod Received
mod Served
mod Described
mod Walked
mod Negotiated
mod Decoded
mod Carried
mod Delivered
mod Drained
mod Emptied
mod Asked
mod Best
mod Elected
mod Samples
mod Tests
mod FloodTests
mod ExchangeTests
mod SendTests
