-- ===== src/Process.antt =====
-- process.c: the parts of the message loop that have a state or a format of their own.
pub mod Split
pub mod Ignore
pub mod Handle
