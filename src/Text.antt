-- ===== src/Text.antt =====
-- The text methods that the services call: `str.strip` and the capped titles.
use Prim.Native.Char.{Char, code}
use ski_tech_backend.Base.{
  ℕ, zero, suc, Bool, ◌&&◌, ◌||◌, List, [], ◌∷◌, String, str_append, leb, contains, if◌then◌else◌,
}

-- The code points of Python's white space.
white_space : List ℕ
white_space = 32 ∷ 133 ∷ 160 ∷ 5760 ∷ 8232 ∷ 8233 ∷ 8239 ∷ 8287 ∷ 12288 ∷ []

is_space : Char → Bool
unfolding white_space
is_space c =
    (leb 9 (code c) && leb (code c) 13)
    || ((leb 28 (code c) && leb (code c) 31)
        || ((leb 8192 (code c) && leb (code c) 8202) || contains white_space (code c)))

strip_left : String → String
unfolding is_space
strip_left String.[] = String.[]
strip_left (String.◌∷◌ c s) = if is_space c then strip_left s else String.◌∷◌ c s

or_empty : Char → String → String
unfolding is_space
or_empty c String.[] = if is_space c then String.[] else String.◌∷◌ c String.[]
or_empty c (String.◌∷◌ d s) = String.◌∷◌ c (String.◌∷◌ d s)

strip_right : String → String
unfolding or_empty
strip_right String.[] = String.[]
strip_right (String.◌∷◌ c s) = or_empty c (strip_right s)

unfoldable pub strip : String → String
unfolding strip_left strip_right
strip s = strip_right (strip_left s)

-- The texts of an f-string, joined.
abbrev pub joined : List String → String
joined [] = ""
joined (s ∷ ss) = str_append s (joined ss)

-- `s[:n]`, by characters.
unfoldable pub prefix_of : ℕ → String → String
prefix_of zero s = String.[]
prefix_of (suc n) String.[] = String.[]
prefix_of (suc n) (String.◌∷◌ c s) = String.◌∷◌ c (prefix_of n s)

-- `len(s)`
unfoldable pub text_length : String → ℕ
text_length String.[] = 0
text_length (String.◌∷◌ c s) = suc (text_length s)
