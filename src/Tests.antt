-- ===== src/Tests.antt =====
-- The theorems at concrete inputs, and runs of the definitions.
mod Tables
mod Serving
mod Blobs
mod Upkeep
mod Aging
mod Files
mod Processes
mod Reports
mod Settings
mod Requests
