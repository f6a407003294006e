-- ===== src/Http.antt =====
-- http_util.h and http_util.cc: requests, responses and chunked messages.
pub mod Request
pub mod Response
pub mod Chunk
