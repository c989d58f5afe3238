-- ===== src/Fragment.antt =====
-- internal/pcap/fragment.go: cutting packets and putting them together.
pub mod Create
pub mod Defrag
mod Tests
