-- ===== src/Files.antt =====
-- Files: src/remote_host_mcp/filesystem.py, and what src/remote_host_mcp/agent_ops.py builds on it.
pub mod Reading
pub mod Lines
pub mod Rounds
pub mod Scanning
pub mod Returned
pub mod Writing
pub mod Guarded
pub mod Patch
pub mod Splicing
pub mod Patching
mod Tests
