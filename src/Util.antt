-- ===== src/Util.antt =====
-- libsponge/util: the buffers and parsers that the TCP code stands on.
pub mod Buffer
pub mod BufferList
pub mod BufferViewList
pub mod InternetChecksum
pub mod EventLoop
pub mod FileDescriptor
pub mod NetParser
