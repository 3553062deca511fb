-- ===== src/Wire.antt =====
-- How a message of src/Drp.proto goes over a socket: four bytes of size in network order, then the
-- message as protobuf writes it.
pub mod Codec
pub mod Outgoing
pub mod Incoming
pub mod Blocking
pub mod RoundTrip
mod Tests
