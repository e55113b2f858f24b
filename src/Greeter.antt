-- ===== src/Greeter.antt =====
-- greeter/zero-greeter-wayland.cpp, the login screen: its user list, its keys and its call of the
-- helper.
pub mod Users
pub mod Login
pub mod Screen
pub mod Keys
pub mod Window
pub mod Text
pub mod Menu
pub mod Canvas
pub mod Glyphs
pub mod Brush
pub mod Frame
