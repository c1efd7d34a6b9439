-- ===== src/Series.antt =====
-- Recurring bookings: api/src/booking/booking-series-recurrence.ts and
-- api/src/booking/booking-series.service.ts.
pub mod Recurrence
pub mod Cancelling
pub mod Creation
