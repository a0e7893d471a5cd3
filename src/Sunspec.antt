-- ===== src/Sunspec.antt =====
-- The SunSpec module: src/go/sunspec.
pub mod Register
pub mod Model
pub mod Server
pub mod Client
