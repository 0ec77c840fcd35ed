-- ===== src/Tests.antt =====
-- Concrete servers, and the theorems applied to them
pub mod Servers
pub mod Guests
pub mod Powers
pub mod Handlers
pub mod Laws
pub mod Rounds
pub mod Members
