-- ===== src/Rpc.antt =====
-- The RPC layer of a service (kettlingar/service.go): who may call (Auth), which methods a service
-- has (Method, Mux, Registration, Ping, Make), what a response looks like (Mime, Response) and one call
-- from start to end (Call).
pub mod Auth
pub mod Mime
pub mod Method
pub mod Response
pub mod Call
pub mod Mux
pub mod Ping
pub mod Registration
pub mod Make
