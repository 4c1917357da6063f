-- ===== src/Gap.antt =====
-- include/feed/gap_buffer.hpp: sequence tracking and out-of-order buffering.
pub mod State
pub mod Deliver
pub mod Retransmit
pub mod Ingest
pub mod Flush
pub mod Trace
pub mod Walk
pub mod Inv
pub mod Framing
pub mod Reorder
pub mod Held
pub mod Swap
pub mod Requests
pub mod Stuck
pub mod Count
pub mod Progress
pub mod Flow
pub mod Framed
pub mod Gather
