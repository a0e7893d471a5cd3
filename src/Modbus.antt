-- ===== src/Modbus.antt =====
-- The Modbus module: src/go/modbus.
pub mod Bits
pub mod Register
pub mod Server
pub mod Config
pub mod Client
