-- ===== src/Prompt.antt =====
-- polkit-agent/zero-polkit-prompt-wayland.cpp, the password prompt: its texts, its drawing, its keys
-- and its command line.
pub mod Canvas
pub mod Glyphs
pub mod Texts
pub mod Frame
pub mod Window
pub mod Args
pub mod Input
