-- ===== src/Lib.antt =====
-- Verification of the core of the SkiTech backend, a hotel-operations service on FastAPI and
-- SQLAlchemy: attendance with geofenced punches, corrections of missed punch-outs, change requests
-- for geofences, recurring tasks with their periods and assignments, complaints, the inbox that
-- tells people of them, and the scope checks that they share.
--
-- The parts and the files that model them:
--
--   Base              lists as tables (select, update_row, update_listed), sorting, keys, tests,
--                     counts
--   Runtime           floats and their formatting as a record of operations, moments in microseconds
--   Session           a database session, the exceptions, handlers as actions on a session, and
--                     what actions keep
--   Text              str.strip, the joining, the length and the prefixes of texts
--   Models            the tables of app/models/attendance.py, app/models/inbox.py, and those of
--                     app/models/models.py that the services read; Models.Database is all of them
--   Scope             app/services/geofence_scope.py
--   Geolocation       app/utils/geolocation.py
--   Inbox             app/services/inbox_service.py
--   Attendance        app/services/attendance_service.py: Records (open and stale records, the
--                     location check), Punch (create_punch_in, create_punch_out), Totals, Today,
--                     History, Geofences (GeofenceService)
--   Corrections       app/services/attendance_correction_service.py: Claim (create_correction) and
--                     Review (approve_correction, reject_correction, cancel_correction), Listing
--                     (list_corrections); Decided puts them together as the steps of a relation
--   GeofenceRequests  app/services/geofence_request_service.py: Submit (create_request,
--                     list_requests) and Review (approve_request, reject_request, cancel_request)
--   KraTasks          app/services/kra_task_service.py: Calendar (datetime.date as its ordinal) and
--                     Periods (period_for, periods_newest_first), Ensure (ensure_occurrences), Access
--                     (require_manager_now, _definition_in_scope, _check_assignable), Assign
--                     (assign_users, end_assignment), Definitions, Summary and Monitoring
--                     (summarize and the lists), and at its root delay_occurrence and
--                     complete_occurrence, with app/models/kra_tasks.py in Models.Kra; a value is its
--                     number of hundredths
--   Complaints        app/services/complaint_service.py: at its root creating, reading, updating,
--                     resolving and commenting; Workflow (escalate_complaint, assign_complaint,
--                     reassign_complaint), Listing (list_complaints), Dashboards (the dashboards and
--                     get_statistics), and Endpoints (the role checks and bulk_action of
--                     app/api/v1/endpoints/complaints.py), with the tables in Models.Complaints
--   Checks            the theorems at concrete data
--
-- A service function is an action: from a session, which has the committed database and the work
-- of the open transaction, to a result or an exception and a session. `run_request` opens a
-- session on a database and gives the result with what is committed at the end, so a handler that
-- raises before its commit leaves the database as it was. A query is a selection of the rows in
-- the order in which they were added, sorted where the source sorts; an update of objects of the
-- session is a write of the rows with their ids. Where a query has no ORDER BY that decides between
-- two rows, they come in the order in which they were added, but for the lists of complaints, which
-- take the database's order as the argument `arrange`. `scalar_one_or_none` is the first selected
-- row: the selections go by a primary key or by a key that a unique constraint guards, with the one
-- exception of create_inbox_item, whose key has no constraint. Where several open items have that
-- key, `is_ambiguous`, its query raises MultipleResultsFound: an escalation raises it, notify
-- swallows it and writes nothing, and the submissions of requests, which use the id of the new
-- request as the key, do not meet it. The session does
-- not flush by itself, and no modelled query depends on a write that is not yet flushed, but for
-- the complaint that an escalation has changed, which the query of its comment finds as the same
-- object. The rows that other transactions commit between the queries and the commit of a
-- submission are an argument, `rivals`; the partial unique indexes of the two request tables are
-- `has_two_pending`, and refuse the commit as the source's `IntegrityError`. Row locks are not
-- modelled beyond that: a review runs on the rows that it reads.
--
-- The clock and new ids are arguments. UUIDs are numbers, since they are only compared and shown.
-- A datetime is a moment with a time zone or a clock reading without one; differences of moments
-- are natural numbers where the source compares them with a positive bound, and integers where it
-- computes hours. Floats are an abstract type; `IsOrdered` states what one theorem needs of their
-- order.
--
-- A date is `date.toordinal()`, so day 1 is a Monday and the days before 1 do not exist: the list
-- of periods ends there, where the source raises an OverflowError. There is no last date: the
-- OverflowError and the ValueError that the source raises for a period that would end after
-- date.max, in the year 9999, are not modelled. Two loops take fuel:
-- periods_back gets one round for each day up to the last date, and seek_month one round for each
-- day; each round goes at least one day back or one month on, so that this is enough. Every other
-- loop runs over a list. The batches of an insert that ignores conflicts stand in one transaction
-- and are one insert; what other transactions commit before it is the argument `rivals`.
--
-- The columns of a complaint that hold the values of an enumeration are of its data type; the
-- constructors `opened` and `fault` are the values "open" and "error". The operator ILIKE and the
-- text of a UUID are arguments. The validation of a text's length is modelled where the services
-- construct the request objects themselves. The clock of one call is one argument.
--
-- Not modelled: the HTTP layer and its validation, the wording of error messages, the columns
-- created_at, updated_at and is_demo where no modelled operation reads them, authentication (the
-- decoded token is an argument), and the components that the manifest lists as not modelled.
pub mod Base
pub mod Runtime
pub mod Session
pub mod Text
pub mod Models
pub mod Scope
pub mod Geolocation
pub mod Inbox
pub mod Attendance
pub mod Corrections
pub mod GeofenceRequests
pub mod KraTasks
pub mod Complaints
pub mod Checks
