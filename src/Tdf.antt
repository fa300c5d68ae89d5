-- ===== src/Tdf.antt =====
-- Blaze/TDF.h and TDF.cpp: labels, headers, integers and texts of the TDF encoding.
pub mod Labels
pub mod Codec
pub mod Keys
pub mod Packet
pub mod Parser
pub mod Tree
