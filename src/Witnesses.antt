-- ===== src/Witnesses.antt =====
-- Each property at a concrete input where its hypotheses hold, with the test data.
mod Data
mod Plumbing
mod Datapath
mod Desk
mod Claims
mod Published
mod Plugin
mod Admission
mod Around
mod Refresh
mod Restarts
mod Connected
mod Node
mod Watch
mod Commands
mod Whole
