-- ===== src/Runs.antt =====
-- The theorems applied to concrete inputs.
mod Wire
mod Gap
mod Gather
mod Book
mod Client
mod Receiver
mod Notify
mod Tools
mod Stats
mod Validate
mod Command
mod Stream
