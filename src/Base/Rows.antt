-- ===== src/Base/Rows.antt =====
-- A row under its key, `select (λ r. key r == i) rows ≡ x ∷ []`, and the writes that leave it alone.
use Prim.Native.Nat.{ℕ, zero, suc, ◌≤◌}
use mathlib.Core.Path.{◌≡◌, refl, ap}
use mathlib.Core.Logic.{inl, inr, ◌≢◌}
use mathlib.Core.Bool.{Bool, true, false}
use mathlib.Core.Option.{some, none}
use mathlib.Core.List.{List, [], ◌∷◌, ◌++◌, map, append-nil}
use native.Mathlib.Omega.{arith}
use ski_tech_backend.Base.Tests.{◌==◌, Bool-cases, ==_refl, ==→eq}
use ski_tech_backend.Base.Lists.{
  contains, first, All, take, drop, length, select, select-append, update_listed, update_row,
  select-update_listed_same,
}
use ski_tech_backend.Base.Keys.{select-update_row_same, contains-select-false}

module _ {ℓ} {A : Type ℓ} where
  pub All-always {κ} : (P : A → Type κ) (xs : List A) → ((x : A) → P x) → All P xs
  All-always P [] h = tt
  All-always P (x ∷ xs) h = (h x, All-always P xs h)

  found_in_select :
      (p q : A → Bool) (xs : List A) {y : A}
      → first (select p xs) ≡ some y
      → q y ≡ true
      → select q xs ≢ []
  found_in_select p q [] h t = λ e. cc
  found_in_select p q (z ∷ zs) {y} h t = elim (Bool-cases (p z)) [
    | inl e ↦
        let z≡y : z ≡ y = cc (rw e at h) in let t' : q z ≡ true = rw z≡y t in λ n. cc (rw t' at n)
    | inr e ↦ let rest = found_in_select p q zs (rw e at h) t in ground (arith, rest)
  ]

  -- A row that a query returns and that meets a test which one row meets is that row.
  pub found_is_row :
      (p q : A → Bool) (xs : List A) {x y : A}
      → first (select p xs) ≡ some y
      → q y ≡ true
      → select q xs ≡ x ∷ []
      → y ≡ x
  found_is_row p q [] h t e = cc
  found_is_row p q (z ∷ zs) {x} {y} h t e = elim (Bool-cases (p z)) [
    | inl f ↦
        let z≡y : z ≡ y = cc (rw f at h) in
        let t' : q z ≡ true = rw z≡y t in let z≡x : z ≡ x = cc (rw t' at e) in cc
    | inr f ↦ elim (Bool-cases (q z)) [
      | inl g ↦ absurd (found_in_select p q zs (rw f at h) t (cc (rw g at e)))
      | inr g ↦ found_is_row p q zs (rw f at h) t (rw g at e)
    ]
  ]

  contains_none :
      (key : A → ℕ) (p : A → Bool) (i : ℕ) (xs : List A)
      → select (λ r. key r == i) xs ≡ []
      → contains (map key (select p xs)) i ≡ false
  contains_none key p i [] h = refl
  contains_none key p i (z ∷ zs) h = ground (arith, contains_none key p i zs)

  other_listed :
      (key : A → ℕ) (z : A) (zs : List A) (p : A → Bool) (i : ℕ)
      → (key z == i) ≡ false
      → contains (map key (z ∷ select p zs)) i ≡ true
      → contains (map key (select p zs)) i ≡ true
  other_listed key z zs p i n c = ground arith

  pub select_none :
      (key : A → ℕ) (i : ℕ) (xs : List A)
      → contains (map key xs) i ≡ false
      → select (λ r. key r == i) xs ≡ []
  select_none key i [] h = refl
  select_none key i (z ∷ zs) h = ground (arith, select_none key i zs)

  -- The only row under a key that is among the selected ones meets their test.
  pub listed_is_row :
      (key : A → ℕ) (p : A → Bool) (i : ℕ) (xs : List A) {x : A}
      → contains (map key (select p xs)) i ≡ true
      → select (λ r. key r == i) xs ≡ x ∷ []
      → p x ≡ true
  listed_is_row key p i [] c e = cc
  listed_is_row key p i (z ∷ zs) {x} c e = elim (Bool-cases (key z == i)) [
    | inl g ↦
        let z≡x : z ≡ x = cc (rw g at e) in
        let rest : select (λ r. key r == i) zs ≡ [] = cc (rw g at e) in
        elim (Bool-cases (p z)) [
          | inl f ↦ rw (← z≡x) f
          | inr f ↦ let unlisted = contains_none key p i zs rest in let listed = rw f at c in cc
        ]
    | inr g ↦ elim (Bool-cases (p z)) [
      | inl f ↦ listed_is_row key p i zs (other_listed key z zs p i g (rw f at c)) (rw g at e)
      | inr f ↦ listed_is_row key p i zs (rw f at c) (rw g at e)
    ]
  ]

  -- A write of another row.
  pub row-update_row :
      (key : A → ℕ) (i : ℕ) (g : A) (xs : List A)
      → (key g == i) ≡ false
      → select (λ r. key r == i) (update_row key (key g) (λ _. g) xs) ≡ select (λ r. key r == i) xs
  row-update_row key i g xs ne =
      select-update_row_same key (λ r. key r == i) (key g) (λ _. g) xs (λ _. ne)
        (All-always _ xs (λ x e. ground arith))

  -- Writes of listed rows that keep the keys.
  pub row-update_listed :
      (key : A → ℕ) (i : ℕ) (ids : List ℕ) (f : A → A) (xs : List A)
      → ((x : A) → key (f x) ≡ key x)
      → contains ids i ≡ false
      → select (λ r. key r == i) (update_listed key ids f xs) ≡ select (λ r. key r == i) xs
  row-update_listed key i ids f xs same ne =
      select-update_listed_same key (λ r. key r == i) ids f xs (λ x. ap (λ k. k == i) (same x))
        (All-always _ xs (λ x e. let k = ==→eq (key x) i e in rw k ne))

  -- Added rows with other keys.
  pub row-append :
      (key : A → ℕ) (i : ℕ) (xs ys : List A)
      → contains (map key ys) i ≡ false
      → select (λ r. key r == i) (xs ++ ys) ≡ select (λ r. key r == i) xs
  row-append key i xs ys ne = rw select-append (rw (select_none key i ys ne) (append-nil _))

  -- A row under a key is among the keys.
  pub contains_row :
      (key : A → ℕ) (i : ℕ) (xs : List A) {x : A}
      → select (λ r. key r == i) xs ≡ x ∷ []
      → contains (map key xs) i ≡ true
  contains_row key i [] h = cc
  contains_row key i (z ∷ zs) h = elim (Bool-cases (key z == i)) [
    | inl e ↦ ground arith
    | inr e ↦ ground (arith, contains_row key i zs (rw e at h))
  ]

  pub first-none : (p : A → Bool) (xs : List A) → first (select p xs) ≡ none → select p xs ≡ []
  first-none p [] h = refl
  first-none p (z ∷ zs) h = elim (Bool-cases (p z)) [
    | inl e ↦ cc (rw e at h)
    | inr e ↦ rw e (first-none p zs (rw e at h))
  ]

  -- After a row that a query finds is overwritten, the query finds what was written.
  pub first-update_row :
      (key : A → ℕ) (p : A → Bool) (g' : A) (xs : List A) {g : A}
      → first (select p xs) ≡ some g
      → p g' ≡ true
      → key g' ≡ key g
      → first (select p (update_row key (key g') (λ _. g') xs)) ≡ some g'
  first-update_row key p g' [] h t same = cc
  first-update_row key p g' (z ∷ zs) {g} h t same = elim (Bool-cases (key z == key g')) [
    | inl e ↦ rw (e, t) refl
    | inr e ↦ elim (Bool-cases (p z)) [
      | inl f ↦
          let z≡g : z ≡ g = cc (rw f at h) in
          let k : (key z == key g') ≡ true = rw (z≡g, same) (==_refl (key g)) in cc
      | inr f ↦ let rest = first-update_row key p g' zs (rw f at h) t same in rw (e, f) rest
    ]
  ]

  -- After a row is added that a query did not find before, the query finds it.
  pub first-append :
      (p : A → Bool) (g' : A) (xs : List A)
      → first (select p xs) ≡ none
      → p g' ≡ true
      → first (select p (xs ++ g' ∷ [])) ≡ some g'
  first-append p g' xs h t = rw select-append (rw (first-none p xs h, t) refl)

  pub All-take {κ} : (P : A → Type κ) (n : ℕ) (xs : List A) → All P xs → All P (take n xs)
  All-take P zero xs h = tt
  All-take P (suc n) [] h = tt
  All-take P (suc n) (x ∷ xs) h = (h.0, All-take P n xs h.1)

  pub All-drop {κ} : (P : A → Type κ) (n : ℕ) (xs : List A) → All P xs → All P (drop n xs)
  All-drop P zero xs h = h
  All-drop P (suc n) [] h = tt
  All-drop P (suc n) (x ∷ xs) h = All-drop P n xs h.1

  pub length-take : (n : ℕ) (xs : List A) → length (take n xs) ≤ n
  length-take zero xs = omega arith
  length-take (suc n) [] = omega arith
  length-take (suc n) (x ∷ xs) = omega (arith, length-take n xs)

  -- A write of a row that has a property keeps the property of all rows.
  pub All-update_row {κ} :
      (P : A → Type κ) (key : A → ℕ) (i : ℕ) (g : A) (xs : List A)
      → P g
      → All P xs
      → All P (update_row key i (λ _. g) xs)
  All-update_row P key i g [] p h = tt
  All-update_row P key i g (x ∷ xs) p h = elim (Bool-cases (key x == i)) [
    | inl e ↦ rw e (p, All-update_row P key i g xs p h.1)
    | inr e ↦ rw e (h.0, All-update_row P key i g xs p h.1)
  ]

  -- The row that a query returns meets its test, and has what all rows have.
  pub All-found {κ} :
      (P : A → Type κ) (p : A → Bool) (xs : List A) {y : A}
      → All P xs
      → first (select p xs) ≡ some y
      → P y × (p y ≡ true)
  All-found P p [] h e = cc
  All-found P p (x ∷ xs) {y} h e = elim (Bool-cases (p x)) [
    | inl t ↦ let same : x ≡ y = cc (rw t at e) in (rw same at h.0, rw same at t)
    | inr f ↦ All-found P p xs h.1 (rw f at e)
  ]

  -- A row that a query finds, overwritten by one that meets the test under the same key.
  pub first_overwritten :
      (key : A → ℕ) (p : A → Bool) (g' : A) (xs : List A) {g : A}
      → first (select p xs) ≡ some g
      → p g' ≡ p g
      → key g' ≡ key g
      → first (select p (update_row key (key g') (λ _. g') xs)) ≡ some g'
  first_overwritten key p g' xs found same same_key =
      let (_, meets) = All-found (λ _. Unit {0}) p xs (All-always _ xs (λ _. tt)) found in
      first-update_row key p g' xs found (rw same meets) same_key

  -- What a query selects is there.
  pub contains-select :
      (key : A → ℕ) (p : A → Bool) (i : ℕ) (xs : List A)
      → contains (map key (select p xs)) i ≡ true
      → contains (map key xs) i ≡ true
  contains-select key p i xs h = elim (Bool-cases (contains (map key xs) i)) [
    | inl e ↦ e
    | inr e ↦ let gone = contains-select-false key p i xs e in cc
  ]

  pub contains-update_listed :
      (key : A → ℕ) (ids : List ℕ) (f : A → A) (i : ℕ) (xs : List A)
      → ((x : A) → key (f x) ≡ key x)
      → contains (map key (update_listed key ids f xs)) i ≡ contains (map key xs) i
  contains-update_listed key ids f i [] same = refl
  contains-update_listed key ids f i (x ∷ xs) same =
      let rest = contains-update_listed key ids f i xs same in
      elim (Bool-cases (contains ids (key x))) [
        | inl e ↦ rw (e, same x, rest) refl
        | inr e ↦ rw (e, rest) refl
      ]

  -- A row that is overwritten under its key is the first one under the key.
  pub first-overwritten_key :
      (key : A → ℕ) (g : A) (xs : List A)
      → contains (map key xs) (key g) ≡ true
      → first (select (λ x. key x == key g) (update_row key (key g) (λ _. g) xs)) ≡ some g
  first-overwritten_key key g [] h = cc
  first-overwritten_key key g (x ∷ xs) h = elim (Bool-cases (key x == key g)) [
    | inl e ↦ rw e (rw (==_refl (key g)) refl)
    | inr e ↦ rw e (rw e (first-overwritten_key key g xs (ground arith)))
  ]
