-- ===== src/Tests.antt =====
-- Concrete runs of the components.
mod Samples
mod Policies
mod Clients
mod Servers
mod Threads
mod Starts
mod Descriptors
mod Comms
mod Shared
mod Ended
mod Calls
mod Polite
mod Table
