-- ===== src/Adapters.antt =====
-- src/constrail/adapters: what the adapters make of a call. Each is a function of the call and of what it
-- reaches outside the program, which is a parameter.
pub mod Exec
pub mod Docker
pub mod Filesystem
pub mod Http
