-- ===== src/Simulation.antt =====
-- src/simulation: the driving cycles, the injected faults, the environment and the sensors.
pub mod DrivingCycle
pub mod Faults
pub mod Environment
pub mod Sensors
mod Runs
