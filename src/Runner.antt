-- ===== src/Runner.antt =====
-- crates/runner: what a runner admits, remembers and runs for its controller.
pub mod Protocol
pub mod Reply
pub mod Store
pub mod Fence
pub mod Serve
mod Tests
