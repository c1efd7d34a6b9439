-- ===== src/Bookings.antt =====
-- api/src/booking/booking.service.ts, an operation of `BookingService` to a definition of a child.
pub mod Events
pub mod Transition
pub mod Create
pub mod Visits
pub mod Cancelling
pub mod Waitlist
pub mod Queries
pub mod Service
pub mod Invariant
pub mod Moves
pub mod Creates
pub mod VisitMoves
pub mod WaitlistMoves
pub mod Calls
pub mod Safe
