-- ===== src/Tests.antt =====
-- Tests of the definitions, and the theorems at concrete inputs.
mod Session
mod Dedup
mod Remote
mod Tasks
mod Agent
mod Whole
mod Pace
mod Host
