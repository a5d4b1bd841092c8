-- ===== src/Recovery.antt =====
-- `CrashRecovery` of src/util/crash_recovery.cc: the log is read, and every transaction in it is
-- undone, kept or sent to the peer.
pub mod Parse
pub mod Cut
pub mod RoundTrip
pub mod History
pub mod Actions
pub mod Completion
pub mod Keeping
pub mod Absent
pub mod Blocks
pub mod OwnLog
pub mod Sending
pub mod Applying
pub mod CatchUp
