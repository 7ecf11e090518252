-- ===== src/Msgpack.antt =====
-- kettlingar/msgpack_to_json.go: a MessagePack stream is written as JSON text. Reader holds the
-- reads from the stream, Convert the converter; the others are about them.
pub mod Reader
pub mod Convert
pub mod Document
pub mod Total
pub mod RoundTrip
pub mod Stream
pub mod Truncated
