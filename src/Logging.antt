-- ===== src/Logging.antt =====
-- src/logging: the frame recorder and its analysis, the log and the metrics.
pub mod Replay
pub mod Logger
pub mod Metrics
mod Runs
