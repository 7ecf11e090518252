-- ===== src/Logtee.antt =====
-- kettlingar/logtee/logtee.go: the fan-out of log records to a base handler and to subscribers.
-- Fanout models the hub and its handlers, Levels the names of the levels, Format the text of a record.
pub mod Levels
pub mod Fanout
pub mod Format
