-- ===== src/Protocol.antt =====
-- internal/distributed/protocol.go: the plan that a coordinator sends to its workers.
-- A nil slice and an empty one are the same list; a copy of a slice or a map is the value itself.
pub mod Wire
pub mod Convert
pub mod RoundTrip
pub mod Identifier
mod Tests
