-- ===== src/Examples.antt =====
-- Concrete nodes, packets and databases, and each theorem at one of them.
pub mod Data
pub mod Wire
pub mod Tables
pub mod Routing
pub mod Runs
pub mod Cells
pub mod Chat
pub mod Network
pub mod Forwarding
pub mod Rounds
