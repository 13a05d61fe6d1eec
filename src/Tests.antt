-- ===== src/Tests.antt =====
-- Concrete runs and instances of the theorems, one module for each component.
mod Sessions
mod Policy
mod Releases
mod Detector
mod Routines
mod Prices
mod Storage
mod Desk
mod Runs
mod Schedules
mod Flushes
mod Notices
mod Access
mod Bridge
