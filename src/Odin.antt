-- ===== src/Odin.antt =====
-- The decoder of Odin Serializer blobs, internal/odin.
pub mod Reader
pub mod Decoder
pub mod Format
pub mod Json
pub mod Scalars
pub mod Tree
pub mod Asset
mod Tests
