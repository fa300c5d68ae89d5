-- ===== src/Tests.antt =====
-- Runs of the definitions at small inputs, and the theorems at inputs that meet their hypotheses.
mod Buffers
mod Accounts
mod PartLists
mod Rooms
mod Attribute
mod Catalysts
mod TdfTexts
mod TdfTrees
mod Squads
mod Creatures
mod Uris
mod Tasks
mod Texts
