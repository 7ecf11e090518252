-- ===== src/Logging.antt =====
-- kettlingar/logging: the bootstrap buffer (Buffer), the tee (Tee), the rotating file (Rotate), and the
-- choice of a destination (Choice) and what it writes (Destination).
pub mod Buffer
pub mod Tee
pub mod Rotate
pub mod Destination
pub mod Choice
