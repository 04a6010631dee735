-- ===== src/Tests.antt =====
-- Runs of the code on small inputs, and the instances of the results.
mod Archives
mod Directories
mod Pools
mod Routes
mod Fetches
mod Slots
mod ChunkReads
mod Outputs
mod Members
mod Attempts
mod Policies
