-- ===== src/Prodeal.antt =====
-- src/prodeal.cc: the steps from the running logs to the finger files that are moved. Each step
-- reads and writes files, and returns an `int`, -1 for an error.
pub mod Names
pub mod Logs
pub mod Count
pub mod Filter
pub mod Select
pub mod Move
pub mod Frames
pub mod Working
pub mod Pipeline
pub mod Daily
pub mod Steps
