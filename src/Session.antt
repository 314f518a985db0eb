-- ===== src/Session.antt =====
-- src/session.c and src/session.h: the session, which joins the other parts.
pub mod Draws
pub mod Clients
pub mod Threads
pub mod Resize
pub mod Cursors
