-- ===== src/Tests.antt =====
-- Runs of the development on concrete data.
pub mod Codec
pub mod Samples
mod Messages
mod Outages
mod Arrivals
mod Text
mod Trees
mod Nodes
mod Starts
mod Groups
