-- ===== src/Base/Lists.antt =====
-- Tables as lists of rows: selection by a Boolean test, updates of listed rows, pagination.
use Prim.Native.Nat.{ℕ, zero, suc, ◌+◌}
use mathlib.Core.Path.{◌≡◌, refl, ap}
use mathlib.Core.Bool.{Bool, true, false, ◌||◌}
use mathlib.Core.Option.{Option, none, some}
use mathlib.Core.List.{List, [], ◌∷◌, ◌++◌, map}
use native.Mathlib.Omega.{arith}
use mathlib.Core.Logic.{◌⊎◌, inl, inr}
use ski_tech_backend.Base.Tests.{◌==◌, if◌then◌else◌, Bool-cases, ==_refl}

abbrev pub contains : List ℕ → ℕ → Bool
contains [] a = false
contains (x ∷ xs) a = (a == x) || contains xs a

abbrev pub All {ℓ κ} : {A : Type ℓ} → (A → Type κ) → List A → Type κ
All P [] = Unit
All P (x ∷ xs) = P x × All P xs

pub List-cases {ℓ} :
    {A : Type ℓ} (xs : List A) → (xs ≡ []) ⊎ ((y : A) × (ys : List A) × (xs ≡ y ∷ ys))
List-cases [] = inl refl
List-cases (y ∷ ys) = inr (y, ys, refl)

module _ {ℓ} {A : Type ℓ} where
  abbrev pub length : List A → ℕ
  length [] = 0
  length (x ∷ xs) = suc (length xs)

  abbrev pub take : ℕ → List A → List A
  take zero xs = []
  take (suc n) [] = []
  take (suc n) (x ∷ xs) = x ∷ take n xs

  abbrev pub drop : ℕ → List A → List A
  drop zero xs = xs
  drop (suc n) [] = []
  drop (suc n) (x ∷ xs) = drop n xs

  -- `SELECT ... WHERE p`
  abbrev pub select : (A → Bool) → List A → List A
  select p [] = []
  select p (x ∷ xs) = if p x then x ∷ select p xs else select p xs

  abbrev pub any : (A → Bool) → List A → Bool
  any p [] = false
  any p (x ∷ xs) = p x || any p xs

  -- `scalars().first()` and, where a key makes the row unique, `scalar_one_or_none()`.
  abbrev pub first : List A → Option A
  first [] = none
  first (x ∷ xs) = some x

  -- Assignments to the rows with the listed keys.
  abbrev pub update_listed : (A → ℕ) → List ℕ → (A → A) → List A → List A
  update_listed key ids f [] = []
  update_listed key ids f (x ∷ xs) =
      (if contains ids (key x) then f x else x) ∷ update_listed key ids f xs

  -- Assignments to the row with one key.
  abbrev pub update_row : (A → ℕ) → ℕ → (A → A) → List A → List A
  update_row key i f [] = []
  update_row key i f (x ∷ xs) = (if key x == i then f x else x) ∷ update_row key i f xs

  pub select-append :
      (p : A → Bool) (xs ys : List A) → select p (xs ++ ys) ≡ select p xs ++ select p ys
  select-append p [] ys = refl
  select-append p (x ∷ xs) ys = ground (arith, select-append p xs ys)

  pub length-append : (xs ys : List A) → length (xs ++ ys) ≡ length xs + length ys
  length-append [] ys = omega arith
  length-append (x ∷ xs) ys = omega (arith, length-append xs ys)

  -- Every selected row is listed, if the list has the keys of the selection.
  pub All-listed :
      (key : A → ℕ) (p : A → Bool) (ids : List ℕ) (xs : List A)
      → ((a : ℕ) → contains (map key (select p xs)) a ≡ true → contains ids a ≡ true)
      → All (λ x. p x ≡ true → contains ids (key x) ≡ true) xs
  All-listed key p ids [] h = tt
  All-listed key p ids (y ∷ ys) h = elim (Bool-cases (p y)) [
    | inl yes_y ↦ (
      λ _. h (key y) (rw yes_y (ground (arith, ==_refl (key y)))),
      All-listed key p ids ys (λ a m. h a (rw yes_y (ground (arith, m)))),
    )
    | inr no_y ↦ (λ e. cc, All-listed key p ids ys (λ a m. h a (rw no_y m)))
  ]

  -- An update that falsifies the test on every row that meets it leaves nothing to select.
  pub select-update_listed_none :
      (key : A → ℕ) (p : A → Bool) (ids : List ℕ) (f : A → A) (xs : List A)
      → ((x : A) → p (f x) ≡ false)
      → All (λ x. p x ≡ true → contains ids (key x) ≡ true) xs
      → select p (update_listed key ids f xs) ≡ []
  select-update_listed_none key p ids f [] off h = refl
  select-update_listed_none key p ids f (y ∷ ys) off h =
      ground (arith, h.0, off y, select-update_listed_none key p ids f ys off h.1)

  pub length-update_listed :
      (key : A → ℕ) (ids : List ℕ) (f : A → A) (xs : List A)
      → length (update_listed key ids f xs) ≡ length xs
  length-update_listed key ids f [] = refl
  length-update_listed key ids f (x ∷ xs) = ap suc (length-update_listed key ids f xs)

  -- An update that keeps a test's answer and the rows that meet it keeps the selection.
  pub select-update_listed_same :
      (key : A → ℕ) (q : A → Bool) (ids : List ℕ) (f : A → A) (xs : List A)
      → ((x : A) → q (f x) ≡ q x)
      → All (λ x. q x ≡ true → contains ids (key x) ≡ false) xs
      → select q (update_listed key ids f xs) ≡ select q xs
  select-update_listed_same key q ids f [] same h = refl
  select-update_listed_same key q ids f (y ∷ ys) same h =
      ground (arith, h.0, same y, select-update_listed_same key q ids f ys same h.1)

  pub select_of_any-false : (p : A → Bool) (xs : List A) → any p xs ≡ false → select p xs ≡ []
  select_of_any-false p [] h = refl
  select_of_any-false p (x ∷ xs) h = ground (arith, select_of_any-false p xs)

  pub any_of_select_nil : (p : A → Bool) (xs : List A) → select p xs ≡ [] → any p xs ≡ false
  any_of_select_nil p [] h = refl
  any_of_select_nil p (x ∷ xs) h = ground (arith, any_of_select_nil p xs)

  pub any-snoc : (p : A → Bool) (xs : List A) (x : A) → any p (xs ++ x ∷ []) ≡ (any p xs || p x)
  any-snoc p [] x = ground arith
  any-snoc p (y ∷ ys) x = ground (arith, any-snoc p ys x)

  pub any-append : (p : A → Bool) (xs ys : List A) → any p (xs ++ ys) ≡ (any p xs || any p ys)
  any-append p [] ys = refl
  any-append p (x ∷ xs) ys = ground (arith, any-append p xs ys)
