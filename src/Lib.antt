-- ===== src/Lib.antt =====
-- Room booking: the booking core of the API, its policy and its records, with what makes them
-- correct.
--
-- The program is a room booking system. Its API keeps users, rooms, opening hours, closures,
-- bookings, a waitlist, devices at the rooms' doors and an audit log in one relational database;
-- `BookingService` changes them in transactions, most of them serializable and retried, after the
-- checks of `BookingPolicyService` and `CheckInPolicyService`. A release of a booking promotes
-- from the waitlist, and a refused booking comes with alternatives.
--
-- Which file models what (paths from the root of the repository):
--   Errors         api/src/booking/booking.errors.ts, api/src/check-in/check-in.errors.ts, and the
--                  plain errors by their messages
--   BangkokTime    api/src/lib/bangkok-time.ts
--   Json, Audit    the metadata of events, and api/src/audit/audit.service.ts
--   Store.Rows     the tables of api/prisma/schema.prisma that the services use
--   Store.Tables   the queries on them, with the constraints of
--                  api/prisma/migrations/20260819000000_booking_correctness_phase1
--   Store.Tx       a transaction: a function from the database to a result and the database
--   Store.World    a service call: transactions, their faults and other clients, notifications
--   Policy         api/src/booking/booking-policy.service.ts
--   Retry          api/src/lib/transaction-retry.ts
--   CheckIn        api/src/check-in/check-in-policy.service.ts
--   Alternatives   api/src/booking/booking-alternative.service.ts
--   Bookings       api/src/booking/booking.service.ts: Events (recordEvent, TRANSITIONS), Transition
--                  (transitionBooking), Create (createBooking), Visits (generateQr, checkInByDevice,
--                  createWalkIn), Waitlist (joinWaitlist, leaveWaitlist, promoteWaitlist,
--                  promoteDueWaitlist), Service (cancel, approve, reject, force delete, check out,
--                  expire and complete due bookings), Queries (getBookings, getBookingById,
--                  getBookingTimeline, getStats), Calls (any history of these, of the end of
--                  Pro access and of the cancellations of Series)
--   RateLimit      api/src/lib/database-rate-limiter.ts
--   Series         Recurrence: api/src/booking/booking-series-recurrence.ts; Creation (the
--                  transaction of create) and Cancelling (cancelOccurrence and cancelSeries):
--                  api/src/booking/booking-series.service.ts
--   Subscription   Entitlement and Access: api/src/subscription/recurring-entitlement.service.ts;
--                  Webhook: api/src/subscription/stripe-webhook.service.ts
--   Bookings.Cancelling  the loop of cancellations that the former runs
--   Jobs           Worker (the transactions) and Running (runOnce):
--                  api/src/jobs/background-job.worker.ts, with the handlers of
--                  api/src/jobs/background-job.handlers.ts; Scheduler and Enqueue:
--                  api/src/jobs/background-job.scheduler.ts
-- A function has the name of the source's, in snake case; its transaction's body ends in `_tx`.
--
-- What stands for what. An instant is a natural number of milliseconds since 1970-01-01T00:00Z, a
-- calendar date the number of days since then, an id a natural number. `next_id` of the database
-- stands for the generator of ids and `clock` for what `new Date()` and `now()` read. A text is
-- the list of its UTF-16 units. Numbers of a request are optional: none is what `Number.isFinite`
-- or `Number.isInteger` refuses. An error keeps its code and its alternatives; texts of errors,
-- included relations and selected columns are left out. The digest of tokens, the database's order
-- of rooms and its order of bookings of the same time are parameters; a fresh token is an
-- argument. The number of a page and the limit of a list are natural numbers, though the route
-- lets others through.
--
-- A transaction that is serializable is one step. The others run at the database's default, read
-- committed. Of those, `generateQr` and `leaveWaitlist` are cut between their read and their
-- conditional update, where others may commit; the expiry of a waitlist entry and the worker's
-- `complete` and `fail` start with their conditional update, and are one step; the search for
-- alternatives of a refused booking writes nothing; the worker's `claim` locks the rows that it
-- gives out, and is one step. The webhook's `process` reads bookings and updates them by their ids
-- alone. It is modelled as a run that no other client commits in, which the database does not
-- guarantee, and is no part of the histories of Calls. The world's schedule says what comes with
-- each next attempt: what other clients have committed since, and the fault that the database
-- reports for the attempt, if any. Past its end the attempts run undisturbed. A commit that is
-- reported as failed is not modelled. The exclusion constraints are checked where rows are
-- inserted: no update of the services makes an inactive booking active or moves one. A call of the
-- notification service adds to the outbox, since it never fails. The loop of the retry has the
-- source's three attempts and that of the search for an error code its five rounds; both are
-- written with the rounds that are left, so no other fuel is used.
--
-- A job's key, a text of its type and its time, is a number of the two. The executions of one run
-- of the worker come one after the other. The handlers of the reminders and of the purge of old
-- rows are parameters of the worker, as its constructor allows; so is the message of an error.
--
-- Not modelled: the preview, the edits and the split of booking series, what `create` does around
-- its transaction, the purge of old rows, the reminders, sessions of the payment provider, the
-- pairing of devices, the notification service, the queries of rooms, users and reports, the HTTP
-- layer and the web frontend.
pub mod Base
pub mod Errors
pub mod BangkokTime
pub mod Jobs
pub mod Json
pub mod Audit
pub mod Store
pub mod Subscription
pub mod Policy
pub mod Retry
pub mod CheckIn
pub mod Alternatives
pub mod Bookings
pub mod RateLimit
pub mod Series
pub mod Tests
