-- ===== src/Text.antt =====
-- misc.c and compat.c: the routines on C strings. A string is the list of its bytes without the
-- terminating NUL, and a read at the end gives 0.
pub mod Case
pub mod Order
pub mod Wild
pub mod Number
pub mod Token
pub mod Clean
pub mod Search
pub mod Replace
