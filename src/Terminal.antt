-- ===== src/Terminal.antt =====
-- src/remote_host_mcp/terminal.py: interactive shells.
pub mod Markers
pub mod State
pub mod Printing
pub mod Stripping
mod Tests
pub mod Table
pub mod Sessions
pub mod Events
pub mod Answer
pub mod Outcome
pub mod Output
pub mod Commands
pub mod Following
pub mod Refine
pub mod Stream
