-- ===== src/Attendance/Punch/Outcome.antt =====
-- What the record that a punch-out closes holds afterwards.
use ski_tech_backend.Base.{
  ◌+◌, ◌≤◌, ◌<◌, Bool, true, inl, inr, ◌⊎◌, All, none, some, List, ◌∷◌, map, ◌≡◌, refl, sym, ap,
  ◌∙◌, arith, ◌==◌, ==_refl, Bool-cases, select, first, contains, All-select, All-order_by_desc,
  order_by_desc_head, contains-order_by_desc, contains-select, contains-update_listed,
  first-overwritten_key,
}
use ski_tech_backend.Runtime.{Runtime, Uuid, Instant, aware, hours}
use ski_tech_backend.Session.{ok, run_request}
use ski_tech_backend.Models.{AttendanceRecord, PropertyGeofence, auto_closed, completed, Db}
use ski_tech_backend.Attendance.Records.{
  as_utc, stale_shift_hours, is_stale, auto_close, is_open_for, punched_in_at, open_records,
  find_geofence,
}
use ski_tech_backend.Attendance.Punch.{
  PunchRequest, record_id, auto_close_all, save_record, hours_from, complete_record, closed_record,
  create_punch_out,
}
use ski_tech_backend.Attendance.Punch.Out.{closed-id, create_punch_out_ok}
use ski_tech_backend.Attendance.Punch.Inside.{IsInside, check_punch_location-IsInside}

-- How a record stands that a punch-out has closed, from how it stood.
abbrev pub ClosedAs :
    {Float : Type 0}
    → Runtime Float
    → Instant
    → AttendanceRecord Float
    → AttendanceRecord Float
    → Type 0
ClosedAs rt now before after =
    (as_utc before.punch_in_time + hours stale_shift_hours < now)
      × (after.status ≡ auto_closed)
      × (after.punch_out_time ≡ none)
      × (after.hours_worked ≡ before.hours_worked)
    ⊎ (now ≤ as_utc before.punch_in_time + hours stale_shift_hours)
      × (after.status ≡ completed)
      × (after.punch_out_time ≡ some (aware now))
      × (after.hours_worked ≡ some (hours_from rt (as_utc before.punch_in_time) now))
      × (after.punch_out_within_fence ≡ some true)

module _ {Float : Type 0} (rt : Runtime Float) (now : Instant)
    (user_id property_id tenant_id : Uuid) (req : PunchRequest Float) where
  pub newest_is_open :
      (d : Db Float) (newest : AttendanceRecord Float) (older : List (AttendanceRecord Float))
      → open_records user_id property_id tenant_id d ≡ newest ∷ older
      → is_open_for user_id property_id tenant_id newest ≡ true
  unfolding open_records
  newest_is_open d newest older e =
      (rw e at (
        All-order_by_desc (λ r. is_open_for user_id property_id tenant_id r ≡ true) punched_in_at
          (select (is_open_for user_id property_id tenant_id) d.attendance_records)
          (All-select (is_open_for user_id property_id tenant_id) d.attendance_records))).0

  newest_is_newest :
      (d : Db Float) (newest : AttendanceRecord Float) (older : List (AttendanceRecord Float))
      → open_records user_id property_id tenant_id d ≡ newest ∷ older
      → All
          (λ o. punched_in_at o ≤ punched_in_at newest)
          (select (is_open_for user_id property_id tenant_id) d.attendance_records)
  unfolding open_records
  newest_is_newest d newest older e =
      order_by_desc_head punched_in_at
        (select (is_open_for user_id property_id tenant_id) d.attendance_records) e

  closed_record-ClosedAs :
      (w : Bool × Float) (r : AttendanceRecord Float)
      → w.0 ≡ true
      → is_open_for user_id property_id tenant_id r ≡ true
      → ClosedAs rt now r (closed_record rt now req w.0 w.1 r)
  unfolding complete_record
  closed_record-ClosedAs w r inside is_open = elim (Bool-cases (is_stale r now)) [
    | inl s ↦ rw s (inl (unfold is_stale in ground arith, refl, ground arith, refl))
    | inr s ↦ rw s (inr (unfold is_stale in ground arith, refl, refl, refl, ap some inside))
  ]

  -- The record that is written is the first one under its key.
  closed_stored :
      (d : Db Float) (c newest : AttendanceRecord Float) (older : List (AttendanceRecord Float))
      → open_records user_id property_id tenant_id d ≡ newest ∷ older
      → c.id ≡ newest.id
      → first
          (select (λ x. x.id == c.id) (save_record c (auto_close_all older d)).attendance_records)
        ≡ some c
  unfolding save_record auto_close_all open_records
  closed_stored d c newest older e same_id =
      let p = is_open_for user_id property_id tenant_id in
      let listed =
        contains-order_by_desc punched_in_at record_id (select p d.attendance_records) newest.id in
      let there : contains (map record_id (select p d.attendance_records)) newest.id ≡ true =
        sym (rw e at listed) ∙ ground (arith, ==_refl newest.id) in
      let stored = contains-select record_id p newest.id d.attendance_records there in
      let kept =
        contains-update_listed record_id (map record_id older) auto_close c.id d.attendance_records
          (λ _. refl) in
      first-overwritten_key record_id c _ (kept ∙ rw same_id stored)

  -- A punch-out that succeeds closes the newest of the user's open records at the property, and the
  -- record that the database holds under its id is then the closed one: with the hours since the
  -- punch-in where the shift is at most 16 hours old, and as auto-closed, with no punch-out time
  -- and no new hours, where it is older. The place of the request is inside the geofence that the
  -- property has in the tenant.
  pub create_punch_out_closes_newest :
      (d d' : Db Float) (r : AttendanceRecord Float) (stale : Bool)
      → run_request (create_punch_out rt now user_id property_id tenant_id req) d
        ≡ (ok (r, stale), d')
      → (newest : AttendanceRecord Float) × (older : List (AttendanceRecord Float)) × (open_records
            user_id property_id tenant_id d
          ≡ newest ∷ older)
        × (is_open_for user_id property_id tenant_id newest ≡ true)
        × All
            (λ o. punched_in_at o ≤ punched_in_at newest)
            (select (is_open_for user_id property_id tenant_id) d.attendance_records)
        × (r.id ≡ newest.id)
        × ClosedAs rt now newest r
        × (first (select (λ x. x.id == r.id) d'.attendance_records) ≡ some r)
        × (fence : PropertyGeofence Float) × (distance : Float) × (find_geofence property_id
              tenant_id d
            ≡ some fence)
        × IsInside rt req.geolocation fence distance
  create_punch_out_closes_newest d d' r stale h =
      let (w, newest, older, e, c, p, _, z) =
        create_punch_out_ok rt now user_id property_id tenant_id req d d' r stale h in
      let (fence, f, here, inside) =
        check_punch_location-IsInside rt property_id tenant_id req.geolocation d w c in
      let is_open = newest_is_open d newest older e in
      let same_id : r.id ≡ newest.id =
        rw p (closed-id rt now user_id property_id tenant_id req w newest) in
      (
        newest,
        older,
        e,
        is_open,
        newest_is_newest d newest older e,
        same_id,
        rw p (closed_record-ClosedAs w newest here is_open),
        rw z (closed_stored d r newest older e same_id),
        fence,
        w.1,
        f,
        inside,
      )
