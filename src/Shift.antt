-- ===== src/Shift.antt =====
-- apps/api/src/shift: the pure functions on shifts and on the business calendar.
pub mod Intervals
pub mod Subtraction
pub mod Definition
pub mod WellFormed
pub mod Starts
pub mod Calendar
