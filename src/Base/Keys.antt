-- ===== src/Base/Keys.antt =====
-- Rows with unique keys: an update of the selected rows touches no other row.
use Prim.Native.Nat.{ℕ}
use mathlib.Core.Path.{◌≡◌, refl, sym, subst}
use mathlib.Core.Logic.{inl, inr}
use mathlib.Core.Bool.{Bool, true, false}
use mathlib.Core.Option.{some}
use mathlib.Core.List.{List, [], ◌∷◌, map}
use native.Mathlib.Omega.{arith}
use ski_tech_backend.Base.Tests.{◌==◌, Bool-cases, ==_refl, ==→eq}
use ski_tech_backend.Base.Lists.{contains, first, All, select, update_listed, update_row}

module _ {ℓ} {A : Type ℓ} where
  -- A primary key.
  abbrev pub HasUniqueKeys : (A → ℕ) → List A → Type 0
  HasUniqueKeys key [] = Unit
  HasUniqueKeys key (x ∷ xs) = (contains (map key xs) (key x) ≡ false) × HasUniqueKeys key xs

  pub contains-select-false :
      (key : A → ℕ) (p : A → Bool) (a : ℕ) (xs : List A)
      → contains (map key xs) a ≡ false
      → contains (map key (select p xs)) a ≡ false
  contains-select-false key p a [] h = refl
  contains-select-false key p a (x ∷ xs) h = ground (arith, contains-select-false key p a xs)

  All-ne :
      (key : A → ℕ) (a : ℕ) (xs : List A)
      → contains (map key xs) a ≡ false
      → All (λ x. (key x == a) ≡ false) xs
  All-ne key a [] h = tt
  All-ne key a (x ∷ xs) h = (ground arith, All-ne key a xs (ground arith))

  weaken :
      (key : A → ℕ) (p : A → Bool) (a : ℕ) (ids : List ℕ) (xs : List A)
      → All (λ x. (key x == a) ≡ false) xs
      → All (λ x. p x ≡ false → contains ids (key x) ≡ false) xs
      → All (λ x. p x ≡ false → contains (a ∷ ids) (key x) ≡ false) xs
  weaken key p a ids [] ne h = tt
  weaken key p a ids (x ∷ xs) ne h =
      (λ e. ground (arith, ne.0, h.0 e), weaken key p a ids xs ne.1 h.1)

  abbrev IsUnlisted : (A → ℕ) → (A → Bool) → List A → List A → Type 0
  IsUnlisted key p xs chosen = All (λ x. p x ≡ false → contains (map key chosen) (key x) ≡ false) xs

  -- Under unique keys no other row has the key of a selected one.
  pub All-unlisted :
      (key : A → ℕ) (p : A → Bool) (xs : List A)
      → HasUniqueKeys key xs
      → All (λ x. p x ≡ false → contains (map key (select p xs)) (key x) ≡ false) xs
  All-unlisted key p [] u = tt
  All-unlisted key p (y ∷ ys) u = elim (Bool-cases (p y)) [
    | inl selected ↦
        let kept : select p (y ∷ ys) ≡ y ∷ select p ys = rw selected in
        subst (IsUnlisted key p (y ∷ ys)) (sym kept) (
          λ e. cc,
          weaken key p (key y) (map key (select p ys)) ys (All-ne key (key y) ys u.0)
              (All-unlisted key p ys u.1),
        )
    | inr skipped ↦
        let kept : select p (y ∷ ys) ≡ select p ys = rw skipped in
        subst (IsUnlisted key p (y ∷ ys)) (sym kept)
          (λ _. contains-select-false key p (key y) ys u.0, All-unlisted key p ys u.1)
  ]

  -- Rows that are listed or have the key `i` are falsified by the two updates in turn.
  pub select-update_both_none :
      (key : A → ℕ) (p : A → Bool) (i : ℕ) (ids : List ℕ) (g f : A → A) (xs : List A)
      → ((x : A) → p (f x) ≡ false)
      → ((x : A) → p (g x) ≡ false)
      → All (λ x. p x ≡ true → contains (i ∷ ids) (key x) ≡ true) xs
      → select p (update_row key i g (update_listed key ids f xs)) ≡ []
  select-update_both_none key p i ids g f [] off_f off_g h = refl
  select-update_both_none key p i ids g f (x ∷ xs) off_f off_g h = ground (
    arith,
    h.0,
    off_f x,
    off_g x,
    off_g (f x),
    select-update_both_none key p i ids g f xs off_f off_g h.1,
  )

  -- An update of one row keeps a selection that leaves the row out before and after.
  pub select-update_row_same :
      (key : A → ℕ) (q : A → Bool) (i : ℕ) (g : A → A) (xs : List A)
      → ((x : A) → q (g x) ≡ false)
      → All (λ x. q x ≡ true → (key x == i) ≡ false) xs
      → select q (update_row key i g xs) ≡ select q xs
  select-update_row_same key q i g [] off h = refl
  select-update_row_same key q i g (x ∷ xs) off h =
      ground (arith, h.0, off x, select-update_row_same key q i g xs off h.1)

  pub All-imp {κ μ} :
      (P : A → Type κ) (Q : A → Type μ) (xs : List A) → ((x : A) → P x → Q x) → All P xs → All Q xs
  All-imp P Q [] f h = tt
  All-imp P Q (x ∷ xs) f h = (f x h.0, All-imp P Q xs f h.1)

  -- What `WHERE` selects meets the test.
  pub All-select : (p : A → Bool) (xs : List A) → All (λ x. p x ≡ true) (select p xs)
  All-select p [] = tt
  All-select p (x ∷ xs) = elim (Bool-cases (p x)) [
    | inl e ↦ rw e (e, All-select p xs)
    | inr e ↦ rw e (All-select p xs)
  ]

  -- A property of every row holds of the selected ones.
  pub All-select_of : (P : A → Type 0) (p : A → Bool) (xs : List A) → All P xs → All P (select p xs)
  All-select_of P p [] h = tt
  All-select_of P p (x ∷ xs) h = elim (Bool-cases (p x)) [
    | inl e ↦ rw e (h.0, All-select_of P p xs h.1)
    | inr e ↦ rw e (All-select_of P p xs h.1)
  ]

  pub All-update_listed :
      (P : A → Type 0) (key : A → ℕ) (ids : List ℕ) (f : A → A) (xs : List A)
      → ((x : A) → P x → P (f x))
      → All P xs
      → All P (update_listed key ids f xs)
  All-update_listed P key ids f [] keep h = tt
  All-update_listed P key ids f (x ∷ xs) keep h = elim (Bool-cases (contains ids (key x))) [
    | inl e ↦ rw e (keep x h.0, All-update_listed P key ids f xs keep h.1)
    | inr e ↦ rw e (h.0, All-update_listed P key ids f xs keep h.1)
  ]

  clash :
      (key : A → ℕ) (y x : A) (ys : List A)
      → contains (map key ys) (key y) ≡ false
      → contains (map key ys) (key x) ≡ true
      → (key y == key x) ≡ true
      → ⊥
  clash key y x ys n c m = let e = ==→eq (key y) (key x) m in ground (arith, e)

  -- The row that a query returns meets its test.
  pub first-select :
      (p : A → Bool) (xs : List A) {x : A} → first (select p xs) ≡ some x → p x ≡ true
  first-select p [] h = cc
  first-select p (y ∷ ys) {x} h = elim (Bool-cases (p y)) [
    | inl e ↦ let y≡x : y ≡ x = cc (rw e at h) in subst (λ z. p z ≡ true) y≡x e
    | inr e ↦ first-select p ys (rw e at h)
  ]

  -- Under unique keys, a row with the key of the one that a query returns is that row.
  pub All-first-select :
      (key : A → ℕ) (p : A → Bool) (xs : List A) {x : A}
      → HasUniqueKeys key xs
      → first (select p xs) ≡ some x
      → (contains (map key xs) (key x) ≡ true) × All (λ y. (key y == key x) ≡ true → y ≡ x) xs
  All-first-select key p [] u h = cc
  All-first-select key p (y ∷ ys) {x} u h = elim (Bool-cases (p y)) [
    | inl e ↦
        let y≡x : y ≡ x = cc (rw e at h) in
        (
          rw (← y≡x) (ground (arith, ==_refl (key y))),
          (
            λ _. y≡x,
            All-imp _ _ ys (λ z n m. cc)
                (subst (λ w. All (λ z. (key z == key w) ≡ false) ys) y≡x
                  (All-ne key (key y) ys u.0)),
          ),
        )
    | inr e ↦
        let (c, rest) = All-first-select key p ys u.1 (rw e at h) in
        (ground (arith, c), (λ m. absurd (clash key y x ys u.0 c m), rest))
  ]

-- No number occurs twice.
abbrev pub Distinct : List ℕ → Type 0
Distinct [] = Unit
Distinct (a ∷ rest) = (contains rest a ≡ false) × Distinct rest
