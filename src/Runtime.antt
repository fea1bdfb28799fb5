-- ===== src/Runtime.antt =====
-- What the Python runtime provides and the services use: floats with their formatting, and moments
-- in time. A float is an abstract type with the operations that the code applies to it.
use ski_tech_backend.Base.{ℕ, ◌*◌, ◌≤◌, pos, ◌≡◌, Bool, true, false, List, ℤ, String}

-- UUIDs are only compared, so they are numbers.
abbrev pub Uuid : Type 0
Uuid = ℕ

-- A moment on the UTC time line, in microseconds since the epoch.
abbrev pub Instant : Type 0
Instant = ℕ

-- A `datetime`: with a time zone it names a moment, without one it is a clock reading.
pub data DateTime : Type 0 where
  aware : Instant → DateTime
  naive : ℕ → DateTime

-- `timedelta(hours=n)` and `timedelta(minutes=n)`, in microseconds.
abbrev pub hours : ℕ → ℕ
hours n = n * 3600000000

abbrev pub minutes : ℕ → ℕ
minutes n = n * 60000000

-- `of_int` is the conversion that arithmetic between an int and a float makes; `total_seconds` is
-- that of a timedelta in microseconds; `sum` starts at the int 0; `fixed n` is the format `.nf`,
-- `show` the plain format, and `show_date` that of a date.
pub record Runtime (Float : Type 0) : Type 0 where
  pub of_int : ℤ → Float
  pub add : Float → Float → Float
  pub sub : Float → Float → Float
  pub mul : Float → Float → Float
  pub div : Float → Float → Float
  pub le : Float → Float → Bool
  pub lt : Float → Float → Bool
  pub sum : List Float → Float
  pub round2 : Float → Float
  pub total_seconds : ℤ → Float
  pub radians : Float → Float
  pub sin : Float → Float
  pub cos : Float → Float
  pub asin : Float → Float
  pub sqrt : Float → Float
  pub show : Float → String
  pub fixed : ℕ → Float → String
  pub show_int : ℕ → String
  pub show_date : ℕ → String

-- What is relied on of float comparison, which holds of all floats but NaN.
pub record IsOrdered {Float : Type 0} (rt : Runtime Float) : Type 0 where
  pub le_of_not_lt : (a b : Float) → rt.lt b a ≡ false → rt.le a b ≡ true
  pub le_refl : (a : Float) → rt.le a a ≡ true
  pub le_trans : (a b c : Float) → rt.le a b ≡ true → rt.le b c ≡ true → rt.le a c ≡ true
  pub of_int_mono : (a b : ℕ) → a ≤ b → rt.le (rt.of_int (pos a)) (rt.of_int (pos b)) ≡ true
