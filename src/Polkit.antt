-- ===== src/Polkit.antt =====
-- polkit-agent/zero-polkit-agent.c, the authentication agent: how it runs the password prompt, which
-- identity it takes, and how it answers polkit.
pub mod Ask
pub mod Identity
pub mod Session
pub mod Memory
pub mod Start
