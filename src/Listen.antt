-- ===== src/Listen.antt =====
-- src/listen.c: the listen specification, and the search for an open port. Text is a list of byte
-- values; a pointer into it is an index, and `strtol(p, NULL, 0)` reads the bytes from it on.
pub mod Strtol
pub mod Parse
pub mod Port
mod Tests
