-- ===== src/Lib.antt =====
-- A booking system for makeup studios: hosts book make-up artists of their site, on one of the
-- next seven days, for 15 to 60 minutes. This library models the core of its API (apps/api/src)
-- and proves what the core promises.
--
-- The parts, and how they interact:
-- - Shift: apps/api/src/shift. Shift/Intervals.antt and Shift/Definition.antt are shift-time.ts
--   (the weekly shift of an artist, its validation, its work intervals and starts),
--   Shift/Calendar.antt is business-date.ts (instants and business dates). The other files of
--   Shift hold proofs.
-- - Database: the rows that the services read and write, and the tables as one record.
-- - Access: apps/api/src/auth/authorization-policy.service.ts.
-- - Availability: apps/api/src/availability/artist-availability.service.ts, which finds the work
--   intervals of an artist's day from the shift, the leaves, the overtimes and the unavailable
--   periods. It uses Shift.
-- - Booking: apps/api/src/booking. Times is booking-time.ts; Texts, Occupation, Create,
--   Idempotency and Commands are booking-create.service.ts; Cancel is booking-cancel.service.ts,
--   Reschedule is booking-reschedule.service.ts, Completion is appointment-completion.service.ts,
--   Slots is booking-slot.service.ts, Generation and GenerationRun are
--   fixed-generation.service.ts, and Appointments holds the constraints of the table
--   (prisma/migrations). `create` validates, finds or writes an idempotency record, and calls
--   `create_fresh`, which asks Availability and reads Occupation; `reschedule` cancels as `cancel`
--   does and calls `create_fresh`; `get_slots` lists the starts of a day; `generate` creates the
--   appointments of the fixed rules. The names of the functions are those of the source in snake
--   case, but for `generate`, the `run` of the generation. The files with Laws in their name, and
--   those that no sentence here names, hold proofs.
-- - Overtime: apps/api/src/overtime/overtime.service.ts. Overtime.antt holds `submit`, `withdraw`,
--   `review` and `directApprove`; Availability reads the approved rows.
-- - Absence: apps/api/src/absence/affected-appointment.ts, and the cancellation of the affected
--   appointments that the two services below share. The other files of Absence prove what these
--   services and the bookings do to appointments in absences.
-- - Unavailability: apps/api/src/unavailability/artist-unavailability.service.ts. `preview_period`
--   stands in Unavailability.antt, `create_period`, `review_period` and `cancel_period` in
--   Unavailability/Commands.antt. A period that becomes active cancels the booked appointments it
--   meets.
-- - Leave: apps/api/src/leave/leave.service.ts. `preview_leave` and `create_leave` stand in
--   Leave.antt, `review_leave` in Leave/Review.antt, `cancel_leave` in Leave/Cancel.antt, which
--   books the fixed appointments of an artist's leave again. A host's leave holds at once, an
--   artist's one after a review.
-- - System: the histories of all these transactions, but for the cancellations of leaves that have
--   fixed appointments to restore, which can book a host who is on leave (Tests/Restored.antt).
--   The histories of System/Finality.antt have these as well.
-- - Errors: the error classes. Base: Boolean tests, lists, and results. Tables: the updates of a
--   table, its order, and its pairwise constraints.
-- - Tests: runs on a small studio.
--
-- A transaction is a function from the tables to an error or to a result with the new tables; one
-- that throws leaves the tables as they were. Its advisory locks make the transactions on one
-- artist, host, date or key run one after the other, so the transactions of a history are a
-- sequence of steps (Booking/History.antt, Overtime/Machine.antt, System.antt).
--
-- Conventions: ids are numbers, compared for equality only. A `Date` is the number of milliseconds
-- since 1992-01-01 in UTC, a possibly invalid one is an `Option`; the day's number stands for the
-- text of a day. Asia/Shanghai is eight hours ahead of UTC at all of these times, as its last
-- summer time ended in 1991. Texts are their UTF-16 code units. NFKC and SHA-256 are parameters
-- (`Platform`), and so are the ids that the database or `randomUUID` gives (`id`, `next_id`);
-- `clock` and `submitted_at` are the times that the process and the database read themselves. A
-- violation of a constraint is the error that the service maps it to, or `database_error`. A
-- record that extends another one by inheritance holds it as a field, or repeats its fields.
-- Numbers are naturals, so tests for negative numbers and fractions have no counterpart. The loops
-- over starts run on fuel: a round moves the start by 15 minutes, so one round more than the
-- interval's end is enough; the loop over the dates of a fixed rule has the eight dates of its
-- window as fuel.
--
-- Not modelled: the user interface (apps/admin-web), the worker's timer (apps/worker), the HTTP
-- layer and its parsers, queries, lists and exports, which change no state; login and sessions;
-- master data; shift versions and fixed requests as operations (their rows are read); the audit
-- entries' snapshots; the CHECK constraints of the tables but for those on the fixed rules and on
-- the times of the unavailable periods.
pub mod Errors
pub mod Base
pub mod Shift
pub mod Database
pub mod Access
pub mod Availability
pub mod Booking
pub mod Tables
pub mod Overtime
pub mod Absence
pub mod Unavailability
pub mod Leave
pub mod System
pub mod Tests
