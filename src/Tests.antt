-- ===== src/Tests.antt =====
-- Runs of the models at concrete inputs, and the theorems applied to such inputs.
mod Streaming
mod Queueing
mod Limits
mod Sorting
mod Routing
mod Proxying
mod Clients
mod Accounts
mod Admission
mod Configuring
mod Storing
