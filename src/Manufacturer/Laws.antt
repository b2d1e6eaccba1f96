-- ===== src/Manufacturer/Laws.antt =====
-- What holds of every make's `handleCanFrame`.
pub mod Responses
pub mod Security
pub mod Codes
pub mod Frames
