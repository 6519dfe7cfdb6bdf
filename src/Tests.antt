-- ===== src/Tests.antt =====
-- Runs at concrete inputs, and each theorem applied to them.
mod Fixtures
mod Projection
mod Gate
mod Server
mod Closures
mod AuthFixtures
mod Tokens
mod Logins
mod Clients
mod Minting
mod Choices
mod Writers
mod Promotions
mod Graphs
mod Consents
