-- ===== src/LogSetup.antt =====
-- kettlingar/logging.go: a service's log fan-out, from the bootstrap buffer to the configured sink.
-- `Env` is what the process finds of its system. logMu makes every method one step.
pub mod Settings
pub mod Configure
pub mod Steps
pub mod Client
