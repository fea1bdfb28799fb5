-- ===== src/Attendance/Punch/Out.antt =====
-- What a punch-out does, on success and on failure.
use ski_tech_backend.Base.{
  Bool, true, false, inl, inr, All, List, [], ◌∷◌, map, ◌≡◌, subst, sym, List-cases, arith,
  contains, select-update_both_none, Bool-cases, order_by_desc,
}
use ski_tech_backend.Runtime.{Runtime, Uuid, Instant}
use ski_tech_backend.Session.{Result-cases, ok, begin, run_request}
use ski_tech_backend.Models.{AttendanceRecord, Db}
use ski_tech_backend.Attendance.Records.{
  is_stale, auto_close, is_open_for, open_records, check_punch_location,
}
use ski_tech_backend.Attendance.Punch.{
  PunchRequest, record_id, auto_close_all, save_record, closed_record, complete_record,
  punch_out_from, create_punch_out,
}
use ski_tech_backend.Attendance.Punch.In.{check_punch_location_reads, All-open_records}

module _ {Float : Type 0} (rt : Runtime Float) (now : Instant)
    (user_id property_id tenant_id : Uuid) (req : PunchRequest Float) where
  abbrev closed : Bool × Float → AttendanceRecord Float → AttendanceRecord Float
  closed w r = closed_record rt now req w.0 w.1 r

  -- The punch-out over a list of open records that is known.
  punch_out_from_ok :
      (d d' : Db Float) (newest : AttendanceRecord Float) (older : List (AttendanceRecord Float))
      (r : AttendanceRecord Float) (stale : Bool)
      → run_request (punch_out_from rt now property_id tenant_id req (newest ∷ older)) d
        ≡ (ok (r, stale), d')
      → (w : Bool × Float) × ((check_punch_location rt property_id tenant_id req.geolocation
            (begin d)).0
          ≡ ok w)
        × (r ≡ closed w newest)
        × (stale ≡ is_stale newest now)
        × (d' ≡ save_record r (auto_close_all older d))
  unfolding punch_out_from
  punch_out_from_ok d d' newest older r stale h =
      let same = check_punch_location_reads rt property_id tenant_id req.geolocation (begin d) in
      elim (Result-cases
        (check_punch_location rt property_id tenant_id req.geolocation (begin d)).0) [
          | inl (e, p) ↦ ground (arith, same)
          | inr (w, p) ↦ (w, p, ground (arith, same), ground (arith, same), ground (arith, same))
        ]

  abbrev IsListed : List Uuid → List (AttendanceRecord Float) → Type 0
  IsListed ids rs =
      All (λ r. is_open_for user_id property_id tenant_id r ≡ true → contains ids r.id ≡ true) rs

  -- Every open record is the newest one or among the older ones, so none is left open.
  open_records-save_record :
      (d : Db Float) (c newest : AttendanceRecord Float) (older : List (AttendanceRecord Float))
      → open_records user_id property_id tenant_id d ≡ newest ∷ older
      → c.id ≡ newest.id
      → is_open_for user_id property_id tenant_id c ≡ false
      → open_records user_id property_id tenant_id (save_record c (auto_close_all older d)) ≡ []
  unfolding save_record auto_close_all
  open_records-save_record d c newest older e same_id off =
      let listed = rw e at (All-open_records user_id property_id tenant_id d) in
      let none_left =
        select-update_both_none record_id (is_open_for user_id property_id tenant_id) c.id
          (map record_id older) (λ _. c) auto_close d.attendance_records (λ r. ground arith)
          (λ _. off)
          (subst (λ i. IsListed (i ∷ map record_id older) d.attendance_records) (sym same_id)
            listed) in
      unfold open_records order_by_desc in rw none_left

  pub closed-id : (w : Bool × Float) (r : AttendanceRecord Float) → (closed w r).id ≡ r.id
  unfolding complete_record
  closed-id w r = elim (Bool-cases (is_stale r now)) [ inl s ↦ rw s | inr s ↦ rw s ]

  closed_not_open :
      (w : Bool × Float) (r : AttendanceRecord Float)
      → is_open_for user_id property_id tenant_id (closed w r) ≡ false
  unfolding complete_record
  closed_not_open w r = elim (Bool-cases (is_stale r now)) [
    | inl s ↦ rw s (ground arith)
    | inr s ↦ rw s (ground arith)
  ]

  -- What a punch-out that succeeds has passed, and the database that it leaves.
  pub create_punch_out_ok :
      (d d' : Db Float) (r : AttendanceRecord Float) (stale : Bool)
      → run_request (create_punch_out rt now user_id property_id tenant_id req) d
        ≡ (ok (r, stale), d')
      → (w : Bool × Float) × (newest : AttendanceRecord Float) × (older : List
          (AttendanceRecord Float))
        × (open_records user_id property_id tenant_id d ≡ newest ∷ older)
        × ((check_punch_location rt property_id tenant_id req.geolocation (begin d)).0 ≡ ok w)
        × (r ≡ closed w newest)
        × (stale ≡ is_stale newest now)
        × (d' ≡ save_record r (auto_close_all older d))
  unfolding create_punch_out
  create_punch_out_ok d d' r stale h =
      elim (List-cases (open_records user_id property_id tenant_id d)) [
        | inl e ↦ ground arith
        | inr (newest, older, e) ↦
            let (w, c, p, q, z) = punch_out_from_ok d d' newest older r stale (rw e at h) in
            (w, newest, older, e, c, p, q, z)
      ]

  -- After a punch-out that succeeds the user has no open record at the property.
  pub create_punch_out_closes_all :
      (d d' : Db Float) (r : AttendanceRecord Float) (stale : Bool)
      → run_request (create_punch_out rt now user_id property_id tenant_id req) d
        ≡ (ok (r, stale), d')
      → open_records user_id property_id tenant_id d' ≡ []
  create_punch_out_closes_all d d' r stale h =
      let (w, newest, older, e, _, p, _, z) = create_punch_out_ok d d' r stale h in
      rw (z, p)
        (open_records-save_record d (closed w newest) newest older e (closed-id w newest)
          (closed_not_open w newest))
