-- ===== src/Scope/Laws.antt =====
-- What the property check lets through.
use ski_tech_backend.Base.{
  true, false, ◌⊎◌, inl, inr, none, some, ◌≡◌, ap, arith, Option-cases, first-select, ==→eq, ◌==◌,
}
use ski_tech_backend.Runtime.{Uuid}
use ski_tech_backend.Session.{ok, Session}
use ski_tech_backend.Models.{Property, Token, Db}
use ski_tech_backend.Scope.{
  caller_tenant, assigned_property, is_property_bound, find_property, property_in_scope,
}

-- How far a caller is limited who passes the check.
abbrev pub IsWithin : Token → Uuid → Type 0
IsWithin user passed =
    (assigned_property user ≡ none) × (is_property_bound user.role ≡ false)
    ⊎ (assigned_property user ≡ some passed)

module _ {Float : Type 0} where
  pub property_in_scope_reads :
      (prop_id : Uuid) (user : Token) (s : Session (Db Float))
      → (property_in_scope prop_id user s).1 ≡ s
  unfolding property_in_scope
  property_in_scope_reads prop_id user s = ground arith

  limits :
      (prop_id passed : Uuid) (user : Token) (s : Session (Db Float))
      → (property_in_scope prop_id user s).0 ≡ ok passed
      → IsWithin user passed
  unfolding property_in_scope
  limits prop_id passed user s h = elim (Option-cases (caller_tenant user)) [
    | inl g ↦ ground arith
    | inr (t, g) ↦ elim (Option-cases (assigned_property user)) [
      | inl e ↦ inl (e, ground arith)
      | inr (own, e) ↦
          let same : own ≡ passed = ==→eq own passed (ground arith) in inr (rw e (ap some same))
    ]
  ]

  -- A property that passes the check is a live one of the caller's tenant. The caller is limited to
  -- that property, or to none and then neither Manager nor Staff.
  pub property_in_scope_ok :
      (prop_id passed : Uuid) (user : Token) (s : Session (Db Float))
      → (property_in_scope prop_id user s).0 ≡ ok passed
      → (passed ≡ prop_id)
        × (p : Property) × (tenant_id : Uuid) × (find_property prop_id tenant_id s.work ≡ some p)
        × (p.id ≡ passed)
        × (p.tenant_id ≡ tenant_id)
        × (p.is_deleted ≡ false)
        × (caller_tenant user ≡ some tenant_id)
        × IsWithin user passed
  unfolding property_in_scope
  property_in_scope_ok prop_id passed user s h = elim (Option-cases (caller_tenant user)) [
    | inl e ↦ ground arith
    | inr (tenant_id, e) ↦ elim (Option-cases (find_property prop_id tenant_id s.work)) [
      | inl f ↦ ground arith
      | inr (p, f) ↦
          let t = first-select _ s.work.properties f in
          let same : passed ≡ prop_id = ground arith in
          let tenant : p.tenant_id ≡ tenant_id = ==→eq _ _ (ground arith) in
          let here : (p.id == prop_id) ≡ true = ground arith in
          let id : p.id ≡ prop_id = ==→eq _ _ here in
          let bounds = limits prop_id passed user s h in
          (same, p, tenant_id, f, rw same id, tenant, ground arith, e, bounds)
    ]
  ]
