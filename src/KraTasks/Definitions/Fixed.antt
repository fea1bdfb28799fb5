-- ===== src/KraTasks/Definitions/Fixed.antt =====
-- The frequency of a task that was assigned.
use ski_tech_backend.Session.{Session}
