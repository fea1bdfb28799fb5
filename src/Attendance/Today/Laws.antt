-- ===== src/Attendance/Today/Laws.antt =====
-- One row for each user who has a record today, and which record it is.
use ski_tech_backend.Base.{
  true, false, ◌==◌, ==_refl, inl, inr, All, List, [], ◌∷◌, map, ◌≡◌, refl, arith, Bool-cases,
  List-cases, select, contains, order_by, contains-order_by, All-select, All-select_of, All-imp,
  any, ap, ◌∙◌, Distinct, Distinct-order_by, ==→eq, ◌≢◌, ap₂, ltb,
}
use ski_tech_backend.Runtime.{Uuid, Instant}
use ski_tech_backend.Models.{AttendanceRecord, is_active, is_completed, Db}
use ski_tech_backend.Attendance.Records.{punched_in_at}
use ski_tech_backend.Attendance.Today.{
  user_of, is_today, latest, row_from, row_for, group_keys, rows_for, get_property_attendance_today,
}

module _ {Float : Type 0} where
  -- What holds of each candidate holds of the latest one.
  latest-All :
      (P : AttendanceRecord Float → Type 0) (best : AttendanceRecord Float)
      (rs : List (AttendanceRecord Float))
      → P best
      → All P rs
      → P (latest best rs)
  unfolding latest
  latest-All P best [] p h = p
  latest-All P best (r ∷ rs) p h = elim (Bool-cases (ltb (punched_in_at best) (punched_in_at r))) [
    | inl e ↦ rw e (latest-All P r rs h.0 h.1)
    | inr e ↦ rw e (latest-All P best rs p h.1)
  ]

  row_from-All :
      (P : AttendanceRecord Float → Type 0) (r : AttendanceRecord Float)
      (rs actives cs : List (AttendanceRecord Float))
      → All P (r ∷ rs)
      → All P actives
      → All P cs
      → P (row_from r rs actives cs)
  unfolding row_from
  row_from-All P r rs [] [] h ha hc = latest-All P r rs h.0 h.1
  row_from-All P r rs [] (c ∷ cs) h ha hc = latest-All P c cs hc.0 hc.1
  row_from-All P r rs (a ∷ actives) cs h ha hc = latest-All P a actives ha.0 ha.1

  contains-group_keys :
      (found : List Uuid) (rs : List (AttendanceRecord Float)) (u : Uuid)
      → contains found u ≡ false
      → contains (group_keys found rs) u ≡ contains (map user_of rs) u
  unfolding group_keys
  contains-group_keys found [] u h = refl
  contains-group_keys found (r ∷ rs) u h =
      ground (arith, contains-group_keys found rs u h, contains-group_keys (r.user_id ∷ found) rs u)

  group_keys_fresh :
      (found : List Uuid) (rs : List (AttendanceRecord Float)) (u : Uuid)
      → contains found u ≡ true
      → contains (group_keys found rs) u ≡ false
  unfolding group_keys
  group_keys_fresh found [] u h = refl
  group_keys_fresh found (r ∷ rs) u h =
      ground (arith, group_keys_fresh found rs u h, group_keys_fresh (r.user_id ∷ found) rs u)

  group_keys-Distinct :
      (found : List Uuid) (rs : List (AttendanceRecord Float)) → Distinct (group_keys found rs)
  unfolding group_keys
  group_keys-Distinct found [] = tt
  group_keys-Distinct found (r ∷ rs) = elim (Bool-cases (contains found r.user_id)) [
    | inl old ↦ rw old (group_keys-Distinct found rs)
    | inr new ↦ rw new (
      group_keys_fresh (r.user_id ∷ found) rs r.user_id (ground (arith, ==_refl r.user_id)),
      group_keys-Distinct (r.user_id ∷ found) rs,
    )
  ]

  row_for-user_id :
      (u : Uuid) (r : AttendanceRecord Float) (rs records : List (AttendanceRecord Float))
      → select (λ x. x.user_id == u) records ≡ r ∷ rs
      → (row_for r rs).user_id ≡ u
  unfolding row_for
  row_for-user_id u r rs records e =
      let group = rw e at (All-select (λ x. x.user_id == u) records) in
      ==→eq _ _ (
        row_from-All (λ x. (x.user_id == u) ≡ true) r rs _ _ group
          (All-select_of (λ x. (x.user_id == u) ≡ true) (λ x. is_active x.status) (r ∷ rs) group)
          (All-select_of (λ x. (x.user_id == u) ≡ true) (λ x. is_completed x.status) (r ∷ rs)
            group))

  select_user_ne :
      (u : Uuid) (records : List (AttendanceRecord Float))
      → contains (map user_of records) u ≡ true
      → select (λ x. x.user_id == u) records ≢ []
  select_user_ne u [] h = λ e. cc
  select_user_ne u (r ∷ rs) h = ground (arith, select_user_ne u rs)

  -- The rows are those of the asked users, in their order.
  map-rows_for :
      (us : List Uuid) (records : List (AttendanceRecord Float))
      → All (λ u. contains (map user_of records) u ≡ true) us
      → map user_of (rows_for us records) ≡ us
  unfolding rows_for
  map-rows_for [] records h = refl
  map-rows_for (u ∷ us) records h = elim (List-cases (select (λ x. x.user_id == u) records)) [
    | inl e ↦ absurd (select_user_ne u records h.0 e)
    | inr (r, rs, e) ↦
        rw (e, rows_for) (ap₂ ◌∷◌ (row_for-user_id u r rs records e) (map-rows_for us records h.1))
  ]

  -- Every key comes from a record.
  group_keys-All :
      (all found : List Uuid) (rs : List (AttendanceRecord Float))
      → All (λ r. contains all r.user_id ≡ true) rs
      → All (λ u. contains all u ≡ true) (group_keys found rs)
  unfolding group_keys
  group_keys-All all found [] h = tt
  group_keys-All all found (r ∷ rs) h = elim (Bool-cases (contains found r.user_id)) [
    | inl old ↦ rw old (group_keys-All all found rs h.1)
    | inr new ↦ rw new (h.0, group_keys-All all (r.user_id ∷ found) rs h.1)
  ]

  All-own_user :
      (rs : List (AttendanceRecord Float))
      → All (λ r. contains (map user_of rs) r.user_id ≡ true) rs
  All-own_user [] = tt
  All-own_user (r ∷ rs) = (
    ground (arith, ==_refl r.user_id),
    All-imp _ _ rs (λ x h. ground (arith, h)) (All-own_user rs),
  )

  map-rows_for_keys :
      (records : List (AttendanceRecord Float))
      → map user_of (rows_for (group_keys [] records) records) ≡ group_keys [] records
  map-rows_for_keys records =
      map-rows_for (group_keys [] records) records
        (group_keys-All (map user_of records) [] records (All-own_user records))

  -- No user has two rows, and a user has a row exactly when they have a record today.
  pub get_property_attendance_today_users :
      (property_id tenant_id : Uuid) (now : Instant) (d : Db Float)
      → let rows = get_property_attendance_today property_id tenant_id now d in
        Distinct (map user_of rows)
        × ((u : Uuid)
            → contains (map user_of rows) u
              ≡ contains
                  (map user_of (select (is_today property_id tenant_id now) d.attendance_records))
                  u)
  unfolding get_property_attendance_today
  get_property_attendance_today_users property_id tenant_id now d =
      let found = select (is_today property_id tenant_id now) d.attendance_records in
      let records = order_by punched_in_at found in
      (
        Distinct-order_by punched_in_at user_of (rows_for (group_keys [] records) records)
            (rw map-rows_for_keys (group_keys-Distinct [] records)),
        λ u.
            contains-order_by punched_in_at user_of (rows_for (group_keys [] records) records) u
            ∙ (ap (λ us. contains us u) (map-rows_for_keys records)
                ∙ (contains-group_keys [] records u refl
                    ∙ contains-order_by punched_in_at user_of found u)),
      )

  any_active_ne :
      (rs : List (AttendanceRecord Float))
      → any (λ x. is_active x.status) rs ≡ true
      → select (λ x. is_active x.status) rs ≢ []
  any_active_ne [] h = λ e. cc
  any_active_ne (r ∷ rs) h = ground (arith, any_active_ne rs)

  -- A user with an active record today is shown by an active record.
  pub row_for_active :
      (r : AttendanceRecord Float) (rs : List (AttendanceRecord Float))
      → any (λ x. is_active x.status) (r ∷ rs) ≡ true
      → is_active (row_for r rs).status ≡ true
  unfolding row_for row_from
  row_for_active r rs h = elim (List-cases (select (λ x. is_active x.status) (r ∷ rs))) [
    | inl e ↦ absurd (any_active_ne (r ∷ rs) h e)
    | inr (a, rest, e) ↦
        let actives = rw e at (All-select (λ x. is_active x.status) (r ∷ rs)) in
        rw (e, row_from) (latest-All (λ x. is_active x.status ≡ true) a rest actives.0 actives.1)
  ]
