-- ===== src/Spice.antt =====
-- src/spice.c: the Spice server and the interfaces that it is given.
pub mod Server
pub mod Core
pub mod Release
