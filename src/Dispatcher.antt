-- ===== src/Dispatcher.antt =====
-- dispatcher/dispatcher.py and dispatcher/app.py: the leases of the GPU.
pub mod Time
pub mod Lease
pub mod State
pub mod Api
pub mod Worker
pub mod System
pub mod Invariant
pub mod Progress
pub mod Gpu
pub mod Calls
pub mod Reachable
pub mod App
pub mod InternalAuth
pub mod Retention
mod Tests
pub mod Service
