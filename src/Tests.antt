-- ===== src/Tests.antt =====
-- Runs of the program on concrete disks, logs, peers and load balancers.
mod Writes
mod Blocks
mod Balancer
mod Log
mod Rows
mod Locking
mod Sessions
mod Starting
mod CatchingUp
mod Syncing
mod Cached
mod Checksums
mod Overlapping
