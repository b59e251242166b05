-- ===== src/Tests.antt =====
-- Runs of the models on concrete inputs.
pub mod World
pub mod Shifts
pub mod Bookings
pub mod Absences
pub mod Overtimes
pub mod Leaves
pub mod Restored
pub mod Slots
pub mod Generation
