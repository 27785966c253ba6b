-- ===== src/Examples.antt =====
-- Runs of the program's parts at concrete inputs.
pub mod Samples
mod Patterns
mod Delivery
mod Submission
mod Login
mod Parsing
mod Relays
mod Rest
mod Smtp
