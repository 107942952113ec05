-- ===== src/Scenarios.antt =====
-- Runs of the modelled calls at concrete states.
pub mod Data
mod Calendar
mod Bookings
mod Accounts
mod Records
mod Races
mod Sorting
mod Requests
mod Schedules
mod Connections
