-- ===== src/Pc.antt =====
-- pc/: the client on the computer.
pub mod Install
pub mod Net
pub mod Scan
pub mod Sync
pub mod Listing
pub mod Commands
