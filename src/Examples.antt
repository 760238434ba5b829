-- ===== src/Examples.antt =====
-- The theorems at concrete inputs, and runs of the code. The interface `Json` is taken at a small
-- type of JSON values.
mod Values
mod Histories
mod Snapshot
mod Server
mod Leases
mod Client
mod Worker
mod Sending
mod Roots
