-- ===== src/Checks/Punches.antt =====
-- The punches at concrete data.
use ski_tech_backend.Base.{
  List, first, ◌==◌, ℕ, true, false, some, [], ◌∷◌, ◌≡◌, refl, arith, All, select, ◌↔◌, any, not,
  HasUniqueKeys, order_by_desc, ◌≢◌, ◌≤◌,
}
use ski_tech_backend.Runtime.{Uuid}
use ski_tech_backend.Session.{ok, err, value_error, already_punched_in, run_request}
use ski_tech_backend.Models.{AttendanceRecord, PropertyGeofence, Db}
use ski_tech_backend.Attendance.Records.{
  is_stale, is_open_for, punched_in_at, open_records, find_geofence, is_inside_fence, distance_to,
  check_punch_location,
}
use ski_tech_backend.Geolocation.{
  haversine_distance, square, validate_coordinates, get_accuracy_warning,
}
use ski_tech_backend.Attendance.Punch.{
  new_record, record_id, auto_close_all, add_record, save_record, closed_record, create_punch_in,
  create_punch_out, complete_record, punch_out_from,
}
use ski_tech_backend.Attendance.Punch.In.{create_punch_in_opens_one, create_punch_in_refused}
use ski_tech_backend.Attendance.Punch.Out.{create_punch_out_closes_all}
use ski_tech_backend.Attendance.Punch.Outcome.{create_punch_out_closes_newest, ClosedAs}
use ski_tech_backend.Attendance.Punch.Inside.{IsInside}
use ski_tech_backend.Checks.{rt, start, at_hotel, at_1000, at_1005}

abbrev punched : AttendanceRecord ℕ
punched = new_record at_1000 510 100 10 1 at_hotel true 0

abbrev after_in : Db ℕ
after_in = (run_request (create_punch_in rt at_1000 510 100 10 1 at_hotel) start).1

punches_in :
    run_request (create_punch_in rt at_1000 510 100 10 1 at_hotel) start ≡ (ok punched, after_in)
unfolding create_punch_in check_punch_location open_records order_by_desc is_stale
    validate_coordinates get_accuracy_warning find_geofence is_inside_fence distance_to
    haversine_distance square new_record
punches_in = refl

create_punch_in_opens_one_example : open_records 100 10 1 after_in ≡ punched ∷ []
create_punch_in_opens_one_example =
    create_punch_in_opens_one rt at_1000 510 100 10 1 at_hotel start after_in punched punches_in

-- A second punch-in meets the shift that is open.
refuses :
    run_request (create_punch_in rt at_1005 511 101 10 1 at_hotel) after_in
    ≡ (err (value_error already_punched_in), after_in)
unfolding create_punch_in check_punch_location open_records order_by_desc is_stale
    validate_coordinates get_accuracy_warning find_geofence is_inside_fence distance_to
    haversine_distance square new_record auto_close_all add_record
refuses = refl

abbrev IsRefused : Type 0
IsRefused =
    (value_error already_punched_in ≡ value_error already_punched_in)
    ↔ (any (λ o. not (is_stale o at_1005)) (open_records 101 10 1 after_in) ≡ true)

create_punch_in_refused_example : (after_in ≡ after_in) × IsRefused
create_punch_in_refused_example =
    create_punch_in_refused rt at_1005 511 101 10 1 at_hotel after_in after_in
      (value_error already_punched_in) refuses

abbrev left : AttendanceRecord ℕ
left = closed_record rt at_1005 at_hotel true 0 punched

abbrev after_out : Db ℕ
after_out = (run_request (create_punch_out rt at_1005 100 10 1 at_hotel) after_in).1

punches_out :
    run_request (create_punch_out rt at_1005 100 10 1 at_hotel) after_in
    ≡ (ok (left, false), after_out)
unfolding create_punch_in check_punch_location open_records order_by_desc is_stale
    validate_coordinates get_accuracy_warning find_geofence is_inside_fence distance_to
    haversine_distance square new_record create_punch_out punch_out_from complete_record
    auto_close_all add_record save_record
punches_out = refl

create_punch_out_closes_all_example : open_records 100 10 1 after_out ≡ []
create_punch_out_closes_all_example =
    create_punch_out_closes_all rt at_1005 100 10 1 at_hotel after_in after_out left false
      punches_out

create_punch_out_closes_newest_example :
    (newest : AttendanceRecord ℕ) × (older : List (AttendanceRecord ℕ)) × (open_records 100 10 1
        after_in
      ≡ newest ∷ older)
    × (is_open_for 100 10 1 newest ≡ true)
    × All
        (λ o. punched_in_at o ≤ punched_in_at newest)
        (select (is_open_for 100 10 1) after_in.attendance_records)
    × (left.id ≡ newest.id)
    × ClosedAs rt at_1005 newest left
    × (first (select (λ x. x.id == left.id) after_out.attendance_records) ≡ some left)
    × (fence : PropertyGeofence ℕ) × (distance : ℕ) × (find_geofence 10 1 after_in ≡ some fence)
    × IsInside rt at_hotel.geolocation fence distance
create_punch_out_closes_newest_example =
    create_punch_out_closes_newest rt at_1005 100 10 1 at_hotel after_in after_out left false
      punches_out

abbrev user : Uuid
user = 100

abbrev other_user : Uuid
other_user = 101

colleague_is_other : other_user ≢ user
colleague_is_other e = omega (arith, e)

ids_in : HasUniqueKeys record_id start.attendance_records
ids_in = (refl, (refl, (refl, (refl, tt))))

ids_out : HasUniqueKeys record_id after_in.attendance_records
unfolding create_punch_in check_punch_location open_records order_by_desc is_stale
    validate_coordinates get_accuracy_warning find_geofence is_inside_fence distance_to
    haversine_distance square new_record auto_close_all add_record
ids_out = (refl, (refl, (refl, (refl, (refl, tt)))))
