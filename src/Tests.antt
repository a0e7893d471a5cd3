-- ===== src/Tests.antt =====
-- Concrete runs of the model, and the theorems at concrete inputs.
mod Wire
mod Document
mod Modules
mod Programs
mod Layout
mod Models
mod Start
mod Broker
mod Sunspec
mod Cpu
mod Bus
mod Messages
mod Registers
