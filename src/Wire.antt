-- ===== src/Wire.antt =====
-- fusion_relay/wire.py: the protobuf and Connect codec, and the Connect observer of
-- fusion_relay/native_stream.py.
pub mod Error
pub mod Varint
pub mod Message
pub mod Frames
pub mod Observer
mod Tests
