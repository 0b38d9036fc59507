-- ===== src/Console.antt =====
-- kern/console.c and kern/console.h: the console devices and the input buffer.
pub mod Buffer
pub mod Screen
pub mod Output
pub mod Devices
pub mod Typing
pub mod Events
pub mod Keyboard
