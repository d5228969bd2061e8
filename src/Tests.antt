-- ===== src/Tests.antt =====
-- Runs at concrete inputs, and the theorems applied at inputs where their hypotheses hold.
pub mod Sample
mod RunQueue
mod Mutex
mod Device
mod Timer
mod Schedule
mod CString
mod Console
mod Sprintf
mod Formatted
mod System
mod Startup
mod Programs
