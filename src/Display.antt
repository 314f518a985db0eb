-- ===== src/Display.antt =====
-- src/display.c and src/display.h.
pub mod ShmCache
pub mod Image
pub mod Screens
pub mod Compare
mod Tests
