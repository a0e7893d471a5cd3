-- ===== src/Modbus/Server.antt =====
-- The Modbus server module: src/go/modbus/server.
pub mod State
pub mod Read
pub mod Write
pub mod Bus
pub mod Coils
pub mod Words
pub mod Single
pub mod Bulk
pub mod Configure
pub mod Echo
