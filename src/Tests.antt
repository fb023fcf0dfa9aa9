-- ===== src/Tests.antt =====
-- Runs of the model at concrete inputs, and the theorems at inputs that meet their hypotheses.
mod Heaps
mod Queues
mod Tasks
mod FileSystems
mod VirtualFiles
mod Drivers
mod Disks
mod Lines
mod Start
mod Install
mod Pages
