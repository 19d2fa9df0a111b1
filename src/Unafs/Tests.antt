-- ===== src/Unafs/Tests.antt =====
-- Runs of the theorems about libs/unafs on concrete inputs.
mod Fixtures
mod Maps
mod Disks
mod Logs
mod Files
mod Systems
mod Names
mod Queries
