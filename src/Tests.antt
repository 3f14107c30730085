-- ===== src/Tests.antt =====
-- Concrete runs of the code, at which the theorems of the other modules apply.
mod Jobs
mod Hosts
mod Gates
mod Devices
mod Runs
mod Kits
mod Calls
