-- ===== src/Terminal.antt =====
-- The terminal: its input buffers, the consoles on the screen, the terminal driver.
mod Ring
pub mod Console
mod Tty
mod Keymap
mod Keyboard
mod Tests
