-- ===== src/Tests.antt =====
-- Concrete runs of the models: a toy platform, and the theorems applied.
mod Toy
mod Gates
mod Nodes
mod Books
mod Routes
mod Reports
mod Served
mod Polls
mod Spokes
mod Clients
mod Sealed
mod Invites
mod Shares
mod Readouts
