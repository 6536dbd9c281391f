-- ===== src/Tests.antt =====
-- The theorems applied to concrete data, over the fixed-point numbers of Double/Fixed,
-- or over exact ones (Exact, Residues).
mod Fixtures
mod Memory
mod Plans
mod Motions
mod Threads
mod Topics
mod Cycles
mod Exact
mod Logging
mod Nodes
mod Tips
mod Rounds
mod Links
mod Hands
mod Turns
mod Residues
