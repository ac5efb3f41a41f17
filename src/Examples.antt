-- ===== src/Examples.antt =====
-- Runs of the program on concrete inputs, and its theorems applied at them.
mod Samples
mod Stores
mod Mutations
mod Publishing
mod Reviews
mod Candidates
mod Cancels
mod Recoveries
mod Repairs
mod Coordination
mod Events
