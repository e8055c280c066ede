-- ===== src/Session.antt =====
-- sessions.c: the table of hosts with their client counts, and the session limit exceptions.
pub mod Types
pub mod Exceptions
pub mod Table
pub mod Run
pub mod Commands
