-- ===== src/Attendance/Geofences/Laws.antt =====
-- One geofence for a property, and writes that reach the caller's own tenant only.
use ski_tech_backend.Base.{
  Bool, true, false, not, ◌||◌, inl, inr, some, List, [], ◌∷◌, ◌++◌, ◌≡◌, refl, arith, ◌==◌,
  ==_refl, ==→eq, any, select, select-append, first-select, select_of_any-false, Option-cases,
  Bool-cases, HasUniqueKeys, All-first-select, select-update_row_same, All-imp, All, get_or,
}
use ski_tech_backend.Runtime.{Uuid}
use ski_tech_backend.Session.{ok, run_request}
use ski_tech_backend.Models.{PropertyGeofence, Db}
use ski_tech_backend.Scope.{as_uuid}
use ski_tech_backend.Attendance.Geofences.{
  GeofenceData, geofence_id, new_geofence, create_geofence, get_geofence_by_id, updated_geofence,
  update_geofence, delete_geofence,
}

or_true : (b : Bool) → (b || true) ≡ true
or_true true = refl
or_true false = refl

module _ {Float : Type 0} where
  -- The geofences of a property.
  abbrev pub fences_at : Uuid → Db Float → List (PropertyGeofence Float)
  fences_at property_id d = select (λ g. g.property_id == property_id) d.property_geofences

  -- A geofence is created only where the property has none, of any tenant, and is then its only
  -- one. It belongs to the caller's tenant, has the radius given or the default of 200 metres, and
  -- alerts on a breach whatever the request says.
  pub create_geofence_single :
      (new_id tenant_id : Uuid) (data_in : GeofenceData Float) (d d' : Db Float)
      (g : PropertyGeofence Float)
      → run_request (create_geofence new_id tenant_id data_in) d ≡ (ok g, d')
      → (fences_at g.property_id d ≡ [])
        × (fences_at g.property_id d' ≡ g ∷ [])
        × (as_uuid data_in.property_id ≡ some g.property_id)
        × (g.tenant_id ≡ tenant_id)
        × (g.radius_meters ≡ get_or data_in.radius_meters 200)
        × (g.alert_on_breach ≡ true)
  unfolding create_geofence new_geofence
  create_geofence_single new_id tenant_id data_in d d' g h =
      elim (Option-cases (as_uuid data_in.property_id)) [
        | inl e ↦ ground arith
        | inr (property_id, e) ↦
            let is_new : g ≡ new_geofence new_id property_id tenant_id data_in = ground arith in
            let after : d'.property_geofences
                ≡ d.property_geofences ++ new_geofence new_id property_id tenant_id data_in ∷ [] =
              ground arith in
            let free : any (λ x. x.property_id == property_id) d.property_geofences ≡ false =
              ground arith in
            let clear = select_of_any-false _ d.property_geofences free in
            (
              rw is_new clear,
              rw (is_new, after, select-append) (rw clear (ground (arith, ==_refl property_id))),
              rw is_new e,
              rw is_new refl,
              rw is_new refl,
              rw is_new (or_true (get_or data_in.alert_on_breach true)),
            )
      ]

  abbrev pub others : Uuid → Db Float → List (PropertyGeofence Float)
  others tenant_id d = select (λ g. not (g.tenant_id == tenant_id)) d.property_geofences

  select-select-not :
      (i t : Uuid) (xs : List (PropertyGeofence Float))
      → All (λ y. (not (y.tenant_id == t)) ≡ true → (y.id == i) ≡ false) xs
      → select (λ g. not (g.tenant_id == t)) (select (λ g. not (g.id == i)) xs)
        ≡ select (λ g. not (g.tenant_id == t)) xs
  select-select-not i t [] h = refl
  select-select-not i t (x ∷ xs) h = ground (arith, h.0, select-select-not i t xs h.1)

  elsewhere :
      (t : Uuid) (g y : PropertyGeofence Float)
      → g.tenant_id ≡ t
      → ((y.id == g.id) ≡ true → y ≡ g)
      → not (y.tenant_id == t) ≡ true
      → (y.id == g.id) ≡ false
  elsewhere t g y own is_g other = elim (Bool-cases (y.id == g.id)) [
    | inl e ↦ let at_t : (y.tenant_id == t) ≡ true = rw (is_g e, own) (==_refl t) in ground arith
    | inr e ↦ e
  ]

  not_among_others :
      (id t : Uuid) (d : Db Float) (g : PropertyGeofence Float)
      → HasUniqueKeys geofence_id d.property_geofences
      → get_geofence_by_id id t d ≡ some g
      → (g.tenant_id ≡ t)
        × All (λ y. (not (y.tenant_id == t)) ≡ true → (y.id == g.id) ≡ false) d.property_geofences
  unfolding get_geofence_by_id
  not_among_others id t d g u found =
      let test = first-select _ d.property_geofences found in
      let own : g.tenant_id ≡ t = ==→eq _ _ (ground arith) in
      let (_, same) = All-first-select geofence_id _ d.property_geofences u found in
      (own, All-imp _ _ d.property_geofences (λ y is_g other. elsewhere t g y own is_g other) same)

  -- Updating and deleting a geofence change no geofence of another tenant, whether they succeed or
  -- fail, where ids are unique.
  pub geofence_writes_keep_other_tenants :
      (id tenant_id : Uuid) (data_in : GeofenceData Float) (d : Db Float)
      → HasUniqueKeys geofence_id d.property_geofences
      → (others tenant_id (run_request (update_geofence id tenant_id data_in) d).1
          ≡ others tenant_id d)
        × (others tenant_id (run_request (delete_geofence id tenant_id) d).1 ≡ others tenant_id d)
  unfolding update_geofence delete_geofence updated_geofence
  geofence_writes_keep_other_tenants id tenant_id data_in d u =
      elim (Option-cases (get_geofence_by_id id tenant_id d)) [
        | inl e ↦ (ground arith, ground arith)
        | inr (g, e) ↦
            let (own, apart) = not_among_others id tenant_id d g u e in
            let updated =
              select-update_row_same geofence_id (λ x. not (x.tenant_id == tenant_id)) g.id
                (λ _. updated_geofence data_in g) d.property_geofences
                (λ _. rw own (ground (arith, ==_refl tenant_id))) apart in
            let removed = select-select-not g.id tenant_id d.property_geofences apart in
            (ground (arith, updated), ground (arith, removed))
      ]
