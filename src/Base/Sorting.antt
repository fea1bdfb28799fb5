-- ===== src/Base/Sorting.antt =====
-- `ORDER BY key DESC`: an insertion sort, newest first.
use Prim.Native.Nat.{ℕ, ◌≤◌}
use mathlib.Core.Path.{◌≡◌, refl, ◌∙◌}
use mathlib.Core.Logic.{inl, inr, ◌≢◌}
use mathlib.Core.Bool.{false, ◌||◌}
use mathlib.Core.List.{List, [], ◌∷◌, map}
use native.Mathlib.Omega.{arith}
use ski_tech_backend.Base.Tests.{◌==◌, leb, leb→le, if◌then◌else◌, Bool-cases}
use ski_tech_backend.Base.Lists.{contains, All}
use ski_tech_backend.Base.Keys.{Distinct}

module _ {ℓ} {A : Type ℓ} where
  unfoldable pub insert_desc : (A → ℕ) → A → List A → List A
  insert_desc key x [] = x ∷ []
  insert_desc key x (y ∷ ys) = if leb (key y) (key x) then x ∷ y ∷ ys else y ∷ insert_desc key x ys

  unfoldable pub order_by_desc : (A → ℕ) → List A → List A
  unfolding insert_desc
  order_by_desc key [] = []
  order_by_desc key (x ∷ xs) = insert_desc key x (order_by_desc key xs)

  contains-insert_desc :
      (key id : A → ℕ) (x : A) (xs : List A) (a : ℕ)
      → contains (map id (insert_desc key x xs)) a ≡ ((a == id x) || contains (map id xs) a)
  unfolding insert_desc
  contains-insert_desc key id x [] a = refl
  contains-insert_desc key id x (y ∷ ys) a = ground (arith, contains-insert_desc key id x ys a)

  -- Sorting neither loses nor adds a row.
  pub contains-order_by_desc :
      (key id : A → ℕ) (xs : List A) (a : ℕ)
      → contains (map id (order_by_desc key xs)) a ≡ contains (map id xs) a
  unfolding order_by_desc
  contains-order_by_desc key id [] a = refl
  contains-order_by_desc key id (x ∷ xs) a =
      rw contains-insert_desc (rw (contains-order_by_desc key id xs a))

  pub All-insert_desc {κ} :
      (P : A → Type κ) (key : A → ℕ) (x : A) (xs : List A)
      → P x
      → All P xs
      → All P (insert_desc key x xs)
  unfolding insert_desc
  All-insert_desc P key x [] px h = (px, tt)
  All-insert_desc P key x (y ∷ ys) px h = elim (Bool-cases (leb (key y) (key x))) [
    | inl at_front ↦ rw at_front (px, h)
    | inr later ↦ rw later (h.0, All-insert_desc P key x ys px h.1)
  ]

  pub All-order_by_desc {κ} :
      (P : A → Type κ) (key : A → ℕ) (xs : List A) → All P xs → All P (order_by_desc key xs)
  unfolding order_by_desc
  All-order_by_desc P key [] h = tt
  All-order_by_desc P key (x ∷ xs) h =
      All-insert_desc P key x (order_by_desc key xs) h.0 (All-order_by_desc P key xs h.1)

  -- The first row of the sorted list has the largest key.
  abbrev IsHeadOf : (A → ℕ) → List A → List A → Type 0
  IsHeadOf key [] xs = Unit
  IsHeadOf key (y ∷ ys) xs = All (λ x. key x ≤ key y) xs

  All-le_trans :
      (key : A → ℕ) (a b : ℕ) (xs : List A)
      → a ≤ b
      → All (λ x. key x ≤ a) xs
      → All (λ x. key x ≤ b) xs
  All-le_trans key a b [] l h = tt
  All-le_trans key a b (x ∷ xs) l h = (omega (arith, h.0), All-le_trans key a b xs l h.1)

  insert_desc-IsHeadOf :
      (key : A → ℕ) (x : A) (s xs : List A)
      → (s ≡ [] → xs ≡ [])
      → IsHeadOf key s xs
      → IsHeadOf key (insert_desc key x s) (x ∷ xs)
  unfolding insert_desc
  insert_desc-IsHeadOf key x [] xs e h = rw (e refl) (omega arith, tt)
  insert_desc-IsHeadOf key x (y ∷ s) xs e h = elim (Bool-cases (leb (key y) (key x))) [
    | inl at_front ↦
        rw at_front (omega arith, All-le_trans key (key y) (key x) xs (leb→le _ _ at_front) h)
    | inr later ↦ rw later (ground arith, h)
  ]

  insert_desc-ne : (key : A → ℕ) (x : A) (s : List A) → insert_desc key x s ≢ []
  unfolding insert_desc
  insert_desc-ne key x [] = λ e. cc
  insert_desc-ne key x (y ∷ s) = ground arith

  order_by_desc-nil : (key : A → ℕ) (xs : List A) → order_by_desc key xs ≡ [] → xs ≡ []
  unfolding order_by_desc
  order_by_desc-nil key [] e = refl
  order_by_desc-nil key (x ∷ xs) e = absurd (insert_desc-ne key x (order_by_desc key xs) e)

  order_by_desc-IsHeadOf : (key : A → ℕ) (xs : List A) → IsHeadOf key (order_by_desc key xs) xs
  unfolding order_by_desc
  order_by_desc-IsHeadOf key [] = tt
  order_by_desc-IsHeadOf key (x ∷ xs) =
      insert_desc-IsHeadOf key x (order_by_desc key xs) xs (order_by_desc-nil key xs)
        (order_by_desc-IsHeadOf key xs)

  -- `ORDER BY key DESC` returns the largest key first.
  pub order_by_desc_head :
      (key : A → ℕ) (xs : List A) {y : A} {ys : List A}
      → order_by_desc key xs ≡ y ∷ ys
      → All (λ x. key x ≤ key y) xs
  order_by_desc_head key xs e = rw e at (order_by_desc-IsHeadOf key xs)

  insert_asc : (A → ℕ) → A → List A → List A
  insert_asc key x [] = x ∷ []
  insert_asc key x (y ∷ ys) = if leb (key x) (key y) then x ∷ y ∷ ys else y ∷ insert_asc key x ys

  -- `ORDER BY key`, and Python's stable `sorted`.
  unfoldable pub order_by : (A → ℕ) → List A → List A
  unfolding insert_asc
  order_by key [] = []
  order_by key (x ∷ xs) = insert_asc key x (order_by key xs)

  contains-insert_asc :
      (key id : A → ℕ) (x : A) (xs : List A) (a : ℕ)
      → contains (map id (insert_asc key x xs)) a ≡ ((a == id x) || contains (map id xs) a)
  unfolding insert_asc
  contains-insert_asc key id x [] a = refl
  contains-insert_asc key id x (y ∷ ys) a = ground (arith, contains-insert_asc key id x ys a)

  pub contains-order_by :
      (key id : A → ℕ) (xs : List A) (a : ℕ)
      → contains (map id (order_by key xs)) a ≡ contains (map id xs) a
  unfolding order_by
  contains-order_by key id [] a = refl
  contains-order_by key id (x ∷ xs) a = rw contains-insert_asc (rw (contains-order_by key id xs a))

  All-insert_asc {κ} :
      (P : A → Type κ) (key : A → ℕ) (x : A) (xs : List A)
      → P x
      → All P xs
      → All P (insert_asc key x xs)
  unfolding insert_asc
  All-insert_asc P key x [] px h = (px, tt)
  All-insert_asc P key x (y ∷ ys) px h = elim (Bool-cases (leb (key x) (key y))) [
    | inl at_front ↦ rw at_front (px, h)
    | inr later ↦ rw later (h.0, All-insert_asc P key x ys px h.1)
  ]

  pub All-order_by {κ} :
      (P : A → Type κ) (key : A → ℕ) (xs : List A) → All P xs → All P (order_by key xs)
  unfolding order_by
  All-order_by P key [] h = tt
  All-order_by P key (x ∷ xs) h =
      All-insert_asc P key x (order_by key xs) h.0 (All-order_by P key xs h.1)

  not_in_rest :
      (key id : A → ℕ) (x y : A) (ys : List A)
      → contains (map id (y ∷ ys)) (id x) ≡ false
      → contains (map id ys) (id y) ≡ false
      → ((id y == id x) || contains (map id ys) (id y)) ≡ false
  not_in_rest key id x y ys n h = ground arith

  Distinct-insert_asc :
      (key id : A → ℕ) (x : A) (xs : List A)
      → contains (map id xs) (id x) ≡ false
      → Distinct (map id xs)
      → Distinct (map id (insert_asc key x xs))
  unfolding insert_asc
  Distinct-insert_asc key id x [] n h = (refl, tt)
  Distinct-insert_asc key id x (y ∷ ys) n h = elim (Bool-cases (leb (key x) (key y))) [
    | inl at_front ↦ rw at_front (n, h)
    | inr later ↦ rw later (
      contains-insert_asc key id x ys (id y) ∙ not_in_rest key id x y ys n h.0,
      Distinct-insert_asc key id x ys (ground (arith, n)) h.1,
    )
  ]

  -- Sorting keeps a key unique.
  pub Distinct-order_by :
      (key id : A → ℕ) (xs : List A) → Distinct (map id xs) → Distinct (map id (order_by key xs))
  unfolding order_by
  Distinct-order_by key id [] h = tt
  Distinct-order_by key id (x ∷ xs) h =
      Distinct-insert_asc key id x (order_by key xs) (rw contains-order_by h.0)
        (Distinct-order_by key id xs h.1)
