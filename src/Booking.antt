-- ===== src/Booking.antt =====
-- apps/api/src/booking: the times, the slots, and the commands on appointments.
pub mod Times
pub mod TimesLaws
pub mod Texts
pub mod Appointments
pub mod Occupation
pub mod Create
pub mod Idempotency
pub mod Commands
pub mod Schedule
pub mod Fresh
pub mod Placed
pub mod Safety
pub mod Replay
pub mod Retry
pub mod Slots
pub mod SlotsLaws
pub mod SlotsBlocked
pub mod SlotsBooked
pub mod Generation
pub mod GenerationLaws
pub mod GenerationSafety
pub mod GenerationRun
pub mod GenerationRunLaws
pub mod Rows
pub mod Cancel
pub mod CancelLaws
pub mod CancelledOnce
pub mod Reschedule
pub mod Completion
pub mod CompletionLaws
pub mod RescheduleLaws
pub mod RescheduleEffect
pub mod TablesKept
pub mod History
pub mod Finality
