-- ===== src/Tests.antt =====
-- Concrete inputs at which the theorems of the other modules apply.
mod Strings
mod Dsns
mod Oracle
mod Zones
mod Connections
mod Cancels
mod Stamps
mod Statements
mod Outputs
mod Wrappers
mod Sessions
mod Cursors
