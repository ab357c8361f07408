-- ===== src/OpLog.antt =====
-- include/oplog.h and src/oplog.cc: the operation log, one module for each of its parts.
pub mod Record
pub mod RoundTrip
pub mod Damage
pub mod Names
pub mod Scan
pub mod Writer
pub mod NameLaws
pub mod Groups
pub mod Delivery
pub mod Refine
pub mod Represents
pub mod Appending
pub mod Failure
pub mod Kept
pub mod Reopen
pub mod Truncate
pub mod Total
pub mod Tests
