-- ===== src/Booking.antt =====
-- Appointments and the agenda of the staff (src/appointments, src/availability).
pub mod Locks
pub mod Availability
pub mod Catalog
pub mod Appointments
pub mod Openings
pub mod Lifecycle
pub mod Intents
pub mod Creation
pub mod Management
pub mod Diary
mod Tests
