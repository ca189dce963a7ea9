-- ===== src/Examples.antt =====
-- Runs of the definitions on small inputs, and the theorems at inputs that meet their hypotheses.
pub mod Gate
pub mod Dag
pub mod Player
pub mod Live
pub mod Diagram
pub mod Connect
pub mod Mcp
pub mod Requests
pub mod Board
pub mod Runs
pub mod Lists
pub mod Forms
