-- ===== src/Server/Tasks.antt =====
-- resonate/src/network.rs: the task operations. A task is created, leased and released, fulfilled or
-- suspended; `Fence` runs a promise operation under the task's lease.
pub mod Create
pub mod Lease
pub mod Fulfill
pub mod Fence
pub mod Suspend
