-- ===== src/Protocol.antt =====
-- The wire protocol of host/src/protocol: the packets and their framing, the messages, the input
-- events and the mapping of their coordinates.
pub mod Packet
pub mod Message
pub mod Input
pub mod Coordinate
