-- ===== src/Examples.antt =====
-- Concrete archives, nodes and servers, and the theorems at work on them.
pub mod Archives
pub mod Nodes
pub mod Votes
pub mod Logs
pub mod Leaders
pub mod Snapshots
pub mod Servers
pub mod Files
pub mod Groups
pub mod Agreement
pub mod Commits
pub mod Turns
pub mod Lost
pub mod Reading
pub mod Systems
pub mod Elections
