-- ===== src/Tests.antt =====
-- Runs of the program's parts on concrete data, and the theorems at concrete inputs.
mod Queues
mod Receipt
mod Served
mod Servers
mod Insertion
mod Start
mod Steps
mod Preconf
mod Moves
mod Cluster
mod Archive
mod Daily
mod Failures
mod Groups
mod Logger
mod Logs
mod Upload
mod Settings
