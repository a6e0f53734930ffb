-- ===== src/Tests.antt =====
-- Runs of the theorems at concrete inputs.
mod Records
mod Coders
mod Indexes
mod CommandLines
mod Symbols
mod Packets
mod Finders
