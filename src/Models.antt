-- ===== src/Models.antt =====
-- The tables that the services read and write (app/models/attendance.py, app/models/inbox.py, and
-- the users, roles and properties of app/models/models.py), and the database that holds them.
mod Attendance
mod Inbox
mod Directory
pub mod Kra
pub mod Complaints
mod Database
pub use Attendance.*
pub use Inbox.*
pub use Directory.*
pub use Database.*
