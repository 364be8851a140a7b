-- ===== src/Http.antt =====
-- src/LibHttp: URL encoding, the request parser and the pool of buffers.
pub mod UrlEncoding
pub mod Parser
pub mod BufferPool
mod Tests
