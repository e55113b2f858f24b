-- ===== src/Agent.antt =====
-- window-agent/zero-window-agent.cpp, a module for each part of the agent.
pub mod Wire
pub mod Stream
pub mod State
pub mod Events
pub mod Lookup
pub mod Commands
pub mod Clients
pub mod Loop
pub mod Run
pub mod Start
