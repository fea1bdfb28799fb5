-- ===== src/Attendance.antt =====
-- app/services/attendance_service.py: punches, totals, the day's summary and the geofences.
pub mod Records
pub mod Punch
pub mod Totals
pub mod Today
pub mod Geofences
pub mod History
