-- ===== src/SendBuffer.antt =====
-- CoreLib/SendBuffer.h, CoreLib/SendBuffer.cpp: send buffers cut from chunks of 65535 bytes.
pub mod Chunk
pub mod Store
pub mod Manager
pub mod Writer
pub mod Alloc
pub mod Frame
pub mod Packet
pub mod Wrap
mod Tests
