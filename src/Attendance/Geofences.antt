-- ===== src/Attendance/Geofences.antt =====
-- app/services/attendance_service.py, `GeofenceService`, and the guards of its endpoints in
-- app/api/v1/endpoints/attendance.py.
pub mod Laws
use ski_tech_backend.Base.{
  ℕ, Bool, true, false, not, ◌&&◌, ◌||◌, Option, none, some, List, [], ◌∷◌, ◌++◌, String, ◌==◌,
  if◌then◌else◌, is_none, is_some, get_or, any, select, first, length, take, drop, update_row,
}
use ski_tech_backend.Runtime.{Uuid}
use ski_tech_backend.Session.{
  Action, value_error, malformed_uuid, geofence_exists, geofence_not_found, integrity_error, pure,
  raise_if, gets, or_raise, modify, commit, ◌>>=◌, ◌>>◌,
}
use ski_tech_backend.Models.{PropertyGeofence, Claim, Db}
use ski_tech_backend.Scope.{as_uuid}
use ski_tech_backend.Attendance.Records.{find_geofence}

-- `PropertyGeofenceCreate`; a field that the request leaves out or sets to null is `none`.
pub record GeofenceData (Float : Type 0) : Type 0 where
  pub property_id : Claim
  pub property_name : Option String
  pub center_lat : Float
  pub center_lng : Float
  pub radius_meters : Option ℕ
  pub address : Option String
  pub city : Option String
  pub country : Option String
  pub alert_on_breach : Option Bool

-- The default of the request's radius.
abbrev pub default_radius : ℕ
default_radius = 200

-- `value or old`, where the old value is kept for a value that is None.
abbrev pub or_kept {ℓ} : {A : Type ℓ} → Option A → Option A → Option A
or_kept none old = old
or_kept (some a) old = some a

module _ {Float : Type 0} where
  abbrev pub geofence_id : PropertyGeofence Float → Uuid
  geofence_id g = g.id

  unfoldable pub new_geofence : Uuid → Uuid → Uuid → GeofenceData Float → PropertyGeofence Float
  new_geofence new_id property_id tenant_id data_in = record {
    id = new_id;
    tenant_id = tenant_id;
    property_id = property_id;
    property_name = data_in.property_name;
    center_lat = data_in.center_lat;
    center_lng = data_in.center_lng;
    radius_meters = get_or data_in.radius_meters default_radius;
    address = data_in.address;
    city = data_in.city;
    country = data_in.country;
    alert_on_breach = get_or data_in.alert_on_breach true || true;
  }

  -- The unique constraint on property_id, which an insert may fail.
  abbrev pub has_fence : Uuid → Db Float → Bool
  has_fence property_id d = any (λ g. g.property_id == property_id) d.property_geofences

  abbrev pub add_geofence : PropertyGeofence Float → Db Float → Db Float
  add_geofence g d = record d { property_geofences = d.property_geofences ++ g ∷ [] }

  unfoldable pub create_geofence :
      Uuid → Uuid → GeofenceData Float → Action (Db Float) (PropertyGeofence Float)
  unfolding new_geofence
  create_geofence new_id tenant_id data_in = do
    property_id ← or_raise (as_uuid data_in.property_id) (value_error malformed_uuid)
    found ← gets (find_geofence property_id tenant_id)
    raise_if (is_some found) (value_error geofence_exists)
    taken ← gets (has_fence property_id)
    raise_if taken integrity_error
    modify (add_geofence (new_geofence new_id property_id tenant_id data_in))
    commit
    pure (new_geofence new_id property_id tenant_id data_in)

  -- The geofence of a tenant with one id.
  unfoldable pub get_geofence_by_id : Uuid → Uuid → Db Float → Option (PropertyGeofence Float)
  get_geofence_by_id id tenant_id d =
      first (select (λ g. g.id == id && g.tenant_id == tenant_id) d.property_geofences)

  -- The loop of `setattr` over the fields that the request sets, but for property_id.
  unfoldable pub updated_geofence :
      GeofenceData Float → PropertyGeofence Float → PropertyGeofence Float
  updated_geofence data_in g = record g {
    property_name = or_kept data_in.property_name g.property_name;
    center_lat = data_in.center_lat;
    center_lng = data_in.center_lng;
    radius_meters = get_or data_in.radius_meters g.radius_meters;
    address = or_kept data_in.address g.address;
    city = or_kept data_in.city g.city;
    country = or_kept data_in.country g.country;
    alert_on_breach = get_or data_in.alert_on_breach g.alert_on_breach;
  }

  abbrev pub save_geofence : PropertyGeofence Float → Db Float → Db Float
  save_geofence g d = record d {
    property_geofences = update_row geofence_id g.id (λ _. g) d.property_geofences;
  }

  unfoldable pub update_geofence :
      Uuid → Uuid → GeofenceData Float → Action (Db Float) (PropertyGeofence Float)
  unfolding updated_geofence
  update_geofence id tenant_id data_in = do
    found ← gets (get_geofence_by_id id tenant_id)
    geofence ← or_raise found (value_error geofence_not_found)
    modify (save_geofence (updated_geofence data_in geofence))
    commit
    pure (updated_geofence data_in geofence)

  abbrev pub remove_geofence : Uuid → Db Float → Db Float
  remove_geofence id d = record d {
    property_geofences = select (λ g. not (g.id == id)) d.property_geofences;
  }

  unfoldable pub delete_geofence : Uuid → Uuid → Action (Db Float) Bool
  delete_geofence id tenant_id = do
    found ← gets (get_geofence_by_id id tenant_id)
    geofence ← or_raise found (value_error geofence_not_found)
    modify (remove_geofence geofence.id)
    commit
    pure true

  abbrev pub is_listed : Uuid → Option Uuid → PropertyGeofence Float → Bool
  is_listed tenant_id none g = g.tenant_id == tenant_id
  is_listed tenant_id (some property_id) g =
      g.tenant_id == tenant_id && g.property_id == property_id

  -- The page and the total count.
  unfoldable pub list_geofences :
      Uuid → ℕ → ℕ → Option Uuid → Db Float → List (PropertyGeofence Float) × ℕ
  list_geofences tenant_id skip limit property_id d =
      let found = select (is_listed tenant_id property_id) d.property_geofences in
      (take limit (drop skip found), length found)
