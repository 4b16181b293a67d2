-- ===== src/Tests.antt =====
-- The theorems at concrete inputs.
pub mod Text
pub mod Wire
pub mod Core
pub mod Moves
pub mod Download
pub mod Manager
pub mod Client
pub mod Stalls
pub mod Upload
pub mod Transport
pub mod Wired
pub mod Server
pub mod System
