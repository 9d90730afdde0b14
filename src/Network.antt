-- ===== src/Network.antt =====
-- crates/network: the address plan of a deployment, and the routes between its machines.
pub mod Error
pub mod Prefix
pub mod Slot
pub mod Subnet
pub mod Routes
pub mod Machine
mod Tests
