-- ===== src/Diagnostics.antt =====
-- src/diagnostics: trouble codes, freeze frames, readiness monitors, vehicle numbers and calibration.
pub mod Dtc
pub mod Readiness
pub mod FreezeFrames
pub mod Vin
pub mod Calibration
mod Runs
