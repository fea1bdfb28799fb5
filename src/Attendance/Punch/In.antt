-- ===== src/Attendance/Punch/In.antt =====
-- What a punch-in does, on success and on failure.
use ski_tech_backend.Base.{
  ==_refl, Bool, true, false, not, [], ◌∷◌, map, any, ◌≡◌, ◌≢◌, ◌↔◌, refl, arith, select, contains,
  inl, inr, All, All-listed, select-update_listed_none, select-append, order_by_desc,
  contains-order_by_desc,
}
use ski_tech_backend.Runtime.{Runtime, Uuid, Instant}
use ski_tech_backend.Session.{
  Result-cases, Error, already_punched_in, value_error, ok, err, begin, run_request, Session,
}
use ski_tech_backend.Models.{AttendanceRecord, Db}
use ski_tech_backend.Attendance.Records.{
  GeolocationData, is_stale, auto_close, is_open_for, punched_in_at, open_records,
  check_punch_location,
}
use ski_tech_backend.Attendance.Punch.{
  PunchRequest, record_id, auto_close_all, add_record, new_record, create_punch_in,
}

module _ {Float : Type 0} (rt : Runtime Float) where
  -- The location check reads only.
  pub check_punch_location_reads :
      (property_id tenant_id : Uuid) (geo : GeolocationData Float) (s : Session (Db Float))
      → (check_punch_location rt property_id tenant_id geo s).1 ≡ s
  unfolding check_punch_location
  check_punch_location_reads property_id tenant_id geo s = ground arith

  check_punch_location_errors :
      (property_id tenant_id : Uuid) (geo : GeolocationData Float) (s : Session (Db Float))
      (e : Error)
      → (check_punch_location rt property_id tenant_id geo s).0 ≡ err e
      → e ≢ value_error already_punched_in
  unfolding check_punch_location
  check_punch_location_errors property_id tenant_id geo s e h p = ground arith

module _ {Float : Type 0} (user_id property_id tenant_id : Uuid) (d : Db Float) where
  -- Every open record is among those that the query returned.
  pub All-open_records :
      All
        (λ r.
          is_open_for user_id property_id tenant_id r ≡ true
          → contains (map record_id (open_records user_id property_id tenant_id d)) r.id ≡ true)
        d.attendance_records
  unfolding open_records
  All-open_records =
      All-listed record_id (is_open_for user_id property_id tenant_id)
        (map record_id (open_records user_id property_id tenant_id d)) d.attendance_records
        (λ a m. rw (contains-order_by_desc punched_in_at record_id _ a) m)

  pub auto_close_all_none_open :
      select
        (is_open_for user_id property_id tenant_id)
        (auto_close_all (open_records user_id property_id tenant_id d) d).attendance_records
      ≡ []
  unfolding auto_close_all
  auto_close_all_none_open =
      select-update_listed_none record_id (is_open_for user_id property_id tenant_id) _ auto_close
        d.attendance_records (λ r. ground arith) All-open_records

module _ {Float : Type 0} (user_id property_id tenant_id : Uuid) (d : Db Float) where
  -- With every open record closed, an added open record is the only one.
  pub open_records-add_record :
      (r : AttendanceRecord Float)
      → is_open_for user_id property_id tenant_id r ≡ true
      → open_records user_id property_id tenant_id
          (add_record r (auto_close_all (open_records user_id property_id tenant_id d) d))
        ≡ r ∷ []
  unfolding add_record
  open_records-add_record r h =
      let none_left = auto_close_all_none_open user_id property_id tenant_id d in
      unfold open_records order_by_desc in rw select-append (rw (none_left, h) refl)

module _ {Float : Type 0} (rt : Runtime Float) (now : Instant)
    (new_id user_id property_id tenant_id : Uuid) (req : PunchRequest Float) where
  abbrev added : Bool × Float → AttendanceRecord Float
  added w = new_record now new_id user_id property_id tenant_id req w.0 w.1

  -- What a punch-in that succeeds has passed, and the database that it leaves.
  pub create_punch_in_ok :
      (d d' : Db Float) (r : AttendanceRecord Float)
      → run_request (create_punch_in rt now new_id user_id property_id tenant_id req) d ≡ (ok r, d')
      → (w : Bool × Float) × ((check_punch_location rt property_id tenant_id req.geolocation
            (begin d)).0
          ≡ ok w)
        × (any (λ o. not (is_stale o now)) (open_records user_id property_id tenant_id d) ≡ false)
        × (r ≡ added w)
        × (d' ≡ add_record r (auto_close_all (open_records user_id property_id tenant_id d) d))
  unfolding create_punch_in
  create_punch_in_ok d d' r h =
      let same = check_punch_location_reads rt property_id tenant_id req.geolocation (begin d) in
      elim (Result-cases
        (check_punch_location rt property_id tenant_id req.geolocation (begin d)).0) [
          | inl (e, p) ↦ ground (arith, same)
          | inr (w, p) ↦ (w, p, ground (arith, same), ground (arith, same), ground (arith, same))
        ]

  -- After a punch-in that succeeds, the new record is the user's only open one at the property.
  pub create_punch_in_opens_one :
      (d d' : Db Float) (r : AttendanceRecord Float)
      → run_request (create_punch_in rt now new_id user_id property_id tenant_id req) d ≡ (ok r, d')
      → open_records user_id property_id tenant_id d' ≡ r ∷ []
  create_punch_in_opens_one d d' r h =
      let (w, _, _, p, q) = create_punch_in_ok d d' r h in
      rw q (
        open_records-add_record user_id property_id tenant_id d r (
          rw p (
            unfold new_record in
            ground (arith, ==_refl user_id, ==_refl property_id, ==_refl tenant_id))))

  -- A punch-in that fails leaves the database as it was, and it fails for a shift that is still
  -- open exactly when one of the user's open records at the property is not stale.
  pub create_punch_in_refused :
      (d d' : Db Float) (e : Error)
      → run_request (create_punch_in rt now new_id user_id property_id tenant_id req) d
        ≡ (err e, d')
      → (d' ≡ d)
        × ((e ≡ value_error already_punched_in) ↔ (
            any (λ o. not (is_stale o now)) (open_records user_id property_id tenant_id d) ≡ true))
  unfolding create_punch_in
  create_punch_in_refused d d' e h =
      let same = check_punch_location_reads rt property_id tenant_id req.geolocation (begin d) in
      let other =
        check_punch_location_errors rt property_id tenant_id req.geolocation (begin d) e in
      (ground (arith, same), (λ p. ground (arith, same, other), λ p. ground (arith, same)))
