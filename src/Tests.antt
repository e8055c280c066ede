-- ===== src/Tests.antt =====
-- Runs of the modelled code at concrete inputs, and the theorems at inputs that meet their hypotheses.
mod Sessions
mod Exceptions
mod Texts
mod Slists
mod Lines
mod Timers
mod Files
mod Channels
mod Users
mod Sockets
mod Handlers
mod Hosts
mod Locks
mod Rights
mod Memos
mod Process
mod Replace
mod Masks
mod Logins
mod Kicks
