-- ===== src/Auth.antt =====
-- greeter/zero-greeter-auth.cpp, the setuid helper that authenticates a user and starts the session.
pub mod Capability
pub mod Request
pub mod Conversation
pub mod Helper
