-- ===== src/Tests.antt =====
-- The theorems at concrete inputs, and the test data for that.
pub mod Disk
pub mod Histories
pub mod Answers
pub mod Programs
pub mod Keys
pub mod Overlay
pub mod Sockets
pub mod Registry
pub mod Download
pub mod Transfer
pub mod Texts
pub mod Windows
pub mod WholeFile
