-- ===== src/Session.antt =====
-- A request's database session: the committed database, which other requests and later ones see,
-- and the work of the open transaction. A handler is an action on it that may raise; what was
-- neither committed nor rolled back when the request ends is lost.
pub mod Keeps
use ski_tech_backend.Base.{Bool, true, false, Option, none, some, ◌≡◌, refl, ◌⊎◌, inl, inr}

-- The exceptions that the services raise. `value_error` stands for each `ValueError`; the reasons
-- are told apart as the messages tell them apart.
pub data Reason : Type 0 where
  already_punched_in no_active_punch_in invalid_coordinates no_geofence low_accuracy : Reason
  outside_fence geofence_exists geofence_not_found : Reason
  claim_without_zone claim_before_punch_in claim_too_long claim_in_future : Reason
  malformed_uuid takes_no_value today_out_of_range period_order : Reason
  text_length_out_of_range : Reason

pub data Error : Type 0 where
  value_error : Reason → Error
  property_not_in_scope request_not_found integrity_error : Error
  -- `RequestConflict` and `RequestForbidden`, by what they say
  not_auto_closed already_closed record_changed property_deleted concurrent_submit : Error
  own_request role_changed not_requester : Error
  -- of the KRA tasks; `no_result_found` is SQLAlchemy's, where a row that must exist does not
  task_not_found not_assignee task_closed no_result_found : Error
  task_role_changed no_property_assigned managers_assign_staff only_staff_and_managers : Error
  frequency_fixed task_inactive assignment_ended : Error
  -- of the complaints: the answers 404, 403 and 400 of their endpoints, and a text that does not
  -- fit its column
  complaint_not_found not_authorized no_complaints too_many_complaints data_error : Error
  -- SQLAlchemy's, where a query for one row at most finds several
  multiple_results_found : Error

pub data Result {ℓ} (A : Type ℓ) : Type ℓ where
  ok : A → Result A
  err : Error → Result A

pub Result-cases :
    {A : Type 0} (r : Result A) → ((e : Error) × (r ≡ err e)) ⊎ ((a : A) × (r ≡ ok a))
Result-cases (err e) = inl (e, refl)
Result-cases (ok a) = inr (a, refl)

pub ok_injective : {A : Type 0} {a b : A} → ok a ≡ ok b → a ≡ b
ok_injective e = cc

pub err_not_ok : {A : Type 0} {x : Error} {a : A} → err x ≡ ok a → ⊥
err_not_ok e = cc

pub record Session (Db : Type 0) : Type 0 where
  pub committed : Db
  pub work : Db

abbrev pub Action : Type 0 → Type 0 → Type 0
Action Db A = Session Db → Result A × Session Db

module _ {Db A : Type 0} where
  abbrev pub pure : A → Action Db A
  pure a s = (ok a, s)

  abbrev pub raise : Error → Action Db A
  raise e s = (err e, s)

  -- a query
  abbrev pub gets : (Db → A) → Action Db A
  gets f s = (ok (f s.work), s)

  abbrev pub or_raise : Option A → Error → Action Db A
  or_raise none e s = (err e, s)
  or_raise (some a) e s = (ok a, s)

  abbrev pub lift : Result A → Action Db A
  lift r s = (r, s)

abbrev continue : {Db A B : Type 0} → Result A → (A → Action Db B) → Action Db B
continue (ok a) f s = f a s
continue (err e) f s = (err e, s)

infixl 5 ◌>>=◌ ◌>>◌
abbrev pub ◌>>=◌ : {Db A B : Type 0} → Action Db A → (A → Action Db B) → Action Db B
◌>>=◌ m f s = let (r, s') = m s in continue r f s'

abbrev pub ◌>>◌ : {Db A B : Type 0} → Action Db A → Action Db B → Action Db B
m >> k = m >>= λ _. k

module _ {Db : Type 0} where
  abbrev pub raise_if : Bool → Error → Action Db (Unit {0})
  raise_if true e s = (err e, s)
  raise_if false e s = (ok tt, s)

  abbrev pub modify : (Db → Db) → Action Db (Unit {0})
  modify f s = (ok tt, record s { work = f s.work })

  abbrev pub commit : Action Db (Unit {0})
  commit s = (ok tt, record s { committed = s.work })

  -- A failed flush or commit: the work is rolled back and the exception goes on.
  abbrev pub rollback_if : Bool → Error → Action Db (Unit {0})
  rollback_if true e s = (err e, record s { work = s.committed })
  rollback_if false e s = (ok tt, s)

  -- A session opens on the committed database.
  abbrev pub begin : Db → Session Db
  begin d = record { committed = d; work = d }

-- A request from its first query to its end: the answer, and the database that it leaves.
abbrev pub run_request : {Db A : Type 0} → Action Db A → Db → Result A × Db
run_request m d = let (r, s) = m (begin d) in (r, s.committed)
