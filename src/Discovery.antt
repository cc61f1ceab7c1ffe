-- ===== src/Discovery.antt =====
-- src/discovery: finding the receivers of a group on the network.
pub mod Packet
pub mod Announce
pub mod Sources
pub mod Tests
