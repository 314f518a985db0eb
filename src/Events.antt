-- ===== src/Events.antt =====
-- src/display.c: what the events of the X server do.
pub mod Damage
