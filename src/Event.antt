-- ===== src/Event.antt =====
-- src/agc_event.c and src/include/agc_event.h, split by the state that the functions share.
pub mod Memory
pub mod Types
pub mod Source
pub mod Headers
pub mod Registry
pub mod Nodes
pub mod Queue
pub mod Dispatch
pub mod Fast
