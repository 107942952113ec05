-- ===== src/Booking.antt =====
-- The booking service, src/services/booking.service.ts.
pub mod Checks
pub mod Service
pub mod Invariant
pub mod Frame
pub mod Free
pub mod Create
pub mod Cancel
pub mod Reschedule
pub mod Race
pub mod Contention
