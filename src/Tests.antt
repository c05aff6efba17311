-- ===== src/Tests.antt =====
-- Runs at concrete inputs.
pub mod Bytes
pub mod Packages
pub mod Managers
pub mod Calls
pub mod Sessions
pub mod LinuxThread
pub mod Threads
pub mod Objects
pub mod Sockets
pub mod Random
