-- ===== src/Cli.antt =====
-- kettlingar/default_main.go: the life of a server (Server, Start) and how its starter learns that it is
-- ready (Ready), how others find and stop it (StateFile), the commands of the command line
-- (Commands), its flags (Flags), the parameters of a call (Values), the call itself (Call) and what is
-- shown of its answer (Output). Main is DefaultMain itself.
pub mod Ready
pub mod StateFile
pub mod Server
pub mod Start
pub mod Commands
pub mod Values
pub mod Output
pub mod Call
pub mod Flags
pub mod Main
