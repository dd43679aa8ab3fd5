-- ===== src/Contracts.antt =====
-- The messages that the parts exchange: the event contract (Contracts/Events) and the provider's
-- gRPC contract (Contracts/Provider). UUIDs are numbers, instants are milliseconds, and W3C trace
-- carriers are opaque numbers: the code only compares, copies and orders them.
pub mod Events
pub mod Provider
