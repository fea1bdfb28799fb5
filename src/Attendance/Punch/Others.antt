-- ===== src/Attendance/Punch/Others.antt =====
-- A punch touches the caller's records only.
use ski_tech_backend.Base.{
  Bool, true, false, inl, inr, All, List, ◌∷◌, map, ◌≡◌, ◌≢◌, refl, sym, subst, arith, ◌==◌, select,
  select-append, contains, contains-order_by_desc, All-imp, All-unlisted, HasUniqueKeys,
  All-update_listed, Bool-cases, ap, select-update_listed_same, select-update_row_same, ◌∙◌,
  append-nil,
}
use ski_tech_backend.Runtime.{Runtime, Uuid, Instant}
use ski_tech_backend.Session.{ok, run_request}
use ski_tech_backend.Models.{AttendanceRecord, Db}
use ski_tech_backend.Attendance.Records.{is_stale, auto_close, is_open_for, open_records}
use ski_tech_backend.Attendance.Punch.{
  PunchRequest, record_id, auto_close_all, add_record, save_record, new_record, create_punch_in,
  complete_record, closed_record, create_punch_out,
}
use ski_tech_backend.Attendance.Punch.In.{create_punch_in_ok}
use ski_tech_backend.Attendance.Punch.Out.{closed-id, create_punch_out_ok}
use ski_tech_backend.Attendance.Punch.Outcome.{newest_is_open}

-- The records of one user.
abbrev pub is_of : {Float : Type 0} → Uuid → AttendanceRecord Float → Bool
is_of v r = r.user_id == v

module _ {Float : Type 0} (user_id property_id tenant_id : Uuid) (v : Uuid) (v≢user : v ≢ user_id)
    (d : Db Float) (keys : HasUniqueKeys record_id d.attendance_records) where
  others_unlisted :
      All
        (λ r.
          is_of v r ≡ true
          → contains (map record_id (open_records user_id property_id tenant_id d)) r.id ≡ false)
        d.attendance_records
  unfolding open_records
  others_unlisted =
      All-imp _ _ d.attendance_records (λ r h mine. rw contains-order_by_desc (h (ground arith)))
        (All-unlisted record_id (is_open_for user_id property_id tenant_id) d.attendance_records
          keys)

  -- The two parts of the list: no record of the other user is the newest or an older open one.
  others_not_newest :
      (newest : AttendanceRecord Float) (older : List (AttendanceRecord Float))
      → open_records user_id property_id tenant_id d ≡ newest ∷ older
      → All (λ r. is_of v r ≡ true → (r.id == newest.id) ≡ false) d.attendance_records
  others_not_newest newest older e =
      let unlisted = rw e at others_unlisted in
      All-imp _ _ d.attendance_records (λ r h mine. ground (arith, h mine)) unlisted

  others_not_older :
      (newest : AttendanceRecord Float) (older : List (AttendanceRecord Float))
      → open_records user_id property_id tenant_id d ≡ newest ∷ older
      → All
          (λ r. is_of v r ≡ true → contains (map record_id older) r.id ≡ false)
          d.attendance_records
  others_not_older newest older e =
      let unlisted = rw e at others_unlisted in
      All-imp _ _ d.attendance_records (λ r h mine. ground (arith, h mine)) unlisted

select-add_record :
    {Float : Type 0} (q : AttendanceRecord Float → Bool) (r : AttendanceRecord Float) (d : Db Float)
    → q r ≡ false
    → select q (add_record r d).attendance_records ≡ select q d.attendance_records
unfolding add_record
select-add_record q r d h = rw select-append (rw h (append-nil _))

select-save_record :
    {Float : Type 0} (q : AttendanceRecord Float → Bool) (r : AttendanceRecord Float) (d : Db Float)
    → q r ≡ false
    → All (λ x. q x ≡ true → (x.id == r.id) ≡ false) d.attendance_records
    → select q (save_record r d).attendance_records ≡ select q d.attendance_records
unfolding save_record
select-save_record q r d h others =
    select-update_row_same record_id q r.id (λ _. r) d.attendance_records (λ _. h) others

select-auto_close_all :
    {Float : Type 0} (v : Uuid) (rs : List (AttendanceRecord Float)) (d : Db Float)
    → All (λ r. is_of v r ≡ true → contains (map record_id rs) r.id ≡ false) d.attendance_records
    → select (is_of v) (auto_close_all rs d).attendance_records
      ≡ select (is_of v) d.attendance_records
unfolding auto_close_all
select-auto_close_all v rs d others =
    select-update_listed_same record_id (is_of v) (map record_id rs) auto_close d.attendance_records
      (λ x. refl) others

All-auto_close_all :
    {Float : Type 0} (v i : Uuid) (rs : List (AttendanceRecord Float)) (d : Db Float)
    → All (λ r. is_of v r ≡ true → (r.id == i) ≡ false) d.attendance_records
    → All (λ r. is_of v r ≡ true → (r.id == i) ≡ false) (auto_close_all rs d).attendance_records
unfolding auto_close_all
All-auto_close_all v i rs d others =
    All-update_listed (λ r. is_of v r ≡ true → (r.id == i) ≡ false) record_id (map record_id rs)
      auto_close d.attendance_records (λ x h. h) others

module _ {Float : Type 0} (rt : Runtime Float) (now : Instant)
    (user_id property_id tenant_id : Uuid) (req : PunchRequest Float) (v : Uuid)
    (v≢user : v ≢ user_id) (d : Db Float)
    (keys : HasUniqueKeys record_id d.attendance_records) where
  -- Where ids are unique, a punch-in leaves every other user's records as they were.
  pub create_punch_in_others :
      (new_id : Uuid) (d' : Db Float) (r : AttendanceRecord Float)
      → run_request (create_punch_in rt now new_id user_id property_id tenant_id req) d ≡ (ok r, d')
      → select (is_of v) d'.attendance_records ≡ select (is_of v) d.attendance_records
  create_punch_in_others new_id d' r h =
      let (w, _, _, p, q) =
        create_punch_in_ok rt now new_id user_id property_id tenant_id req d d' r h in
      let os = open_records user_id property_id tenant_id d in
      rw q (
        select-add_record (is_of v) r (auto_close_all os d)
          (rw p (unfold new_record in ground arith))
        ∙ select-auto_close_all v os d
            (others_unlisted user_id property_id tenant_id v v≢user d keys))

  closed-user_id :
      (w : Bool × Float) (r : AttendanceRecord Float)
      → (closed_record rt now req w.0 w.1 r).user_id ≡ r.user_id
  unfolding complete_record
  closed-user_id w r = elim (Bool-cases (is_stale r now)) [ inl s ↦ rw s | inr s ↦ rw s ]

  -- Where ids are unique, a punch-out leaves every other user's records as they were.
  pub create_punch_out_others :
      (d' : Db Float) (r : AttendanceRecord Float) (stale : Bool)
      → run_request (create_punch_out rt now user_id property_id tenant_id req) d
        ≡ (ok (r, stale), d')
      → select (is_of v) d'.attendance_records ≡ select (is_of v) d.attendance_records
  create_punch_out_others d' r stale h =
      let (w, newest, older, e, _, p, _, q) =
        create_punch_out_ok rt now user_id property_id tenant_id req d d' r stale h in
      let is_open = newest_is_open rt now user_id property_id tenant_id req d newest older e in
      let same_id : r.id ≡ newest.id =
        ap (λ (x : AttendanceRecord Float). x.id) p
        ∙ closed-id rt now user_id property_id tenant_id req w newest in
      let same_user : r.user_id ≡ newest.user_id =
        ap (λ (x : AttendanceRecord Float). x.user_id) p ∙ closed-user_id w newest in
      rw q (
        select-save_record (is_of v) r (auto_close_all older d) (ground arith) (
          All-auto_close_all v r.id older d (
            subst (λ i. All (λ x. is_of v x ≡ true → (x.id == i) ≡ false) d.attendance_records)
              (sym same_id)
              (others_not_newest user_id property_id tenant_id v v≢user d keys newest older e)))
        ∙ select-auto_close_all v older d
            (others_not_older user_id property_id tenant_id v v≢user d keys newest older e))
