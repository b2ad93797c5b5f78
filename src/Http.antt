-- ===== src/Http.antt =====
-- src/http.cpp: parts of the HTTP library that are pure or keep their own state.
pub mod Pipe
pub mod Percent
pub mod Query
pub mod Message
pub mod Encoder
pub mod Response
pub mod Decoder
pub mod Streaming
