-- ===== src/Examples.antt =====
-- Concrete inputs for the program's parts, and what its theorems say of them.
pub mod World
pub mod Garden
mod Login
mod Audit
mod Names
mod Keystone
pub mod Rotation
mod Shoots
mod Certificates
mod Command
mod Moves
mod Quotas
