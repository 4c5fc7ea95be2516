-- ===== src/Crypt/Attacks.antt =====
-- src/crypt.rs: what the receiver accepts that it should not, and what it refuses that it should not.
pub mod LateMoves
pub mod NeverSeen
pub mod Forgery
mod Examples
