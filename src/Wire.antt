-- ===== src/Wire.antt =====
-- The wire format: message.h, payload.h, signed_message.h, and the (de)serializers.
pub mod Message
pub mod Memory
pub mod Serializer
pub mod Deserializer
pub mod Layout
pub mod Reading
pub mod RoundTrip
pub mod Headers
pub mod Agree
pub mod Metadata
pub mod Reads
pub mod Bounds
pub mod Taken
pub mod Inverse
pub mod Payload
