-- ===== src/Text.antt =====
-- Texts. The program mostly compares its strings, so a string is a number that stands for it, and
-- `chars` gives the code points where the code looks inside (regular expressions, orders, lengths).
-- `printable` is str.isprintable on one character, which the Unicode tables of Python decide.
use watershed_memory.Base.{
  ℕ, ◌≡◌, Bool, true, false, ◌&&◌, ◌||◌, List, [], ◌∷◌, arith, ltb, leb, ◌==◌, length, all,
}

pub record Texts : Type 0 where
  pub chars : ℕ → List ℕ
  pub printable : ℕ → Bool

unfoldable pub is_digit : ℕ → Bool
is_digit c = leb b'0' c && leb c b'9'

unfoldable pub is_alphanumeric : ℕ → Bool
unfolding is_digit
is_alphanumeric c = is_digit c || leb b'A' c && leb c b'Z' || leb b'a' c && leb c b'z'

-- `[A-Za-z0-9_.:-]`
unfoldable pub is_id_char : ℕ → Bool
unfolding is_alphanumeric
is_id_char c = is_alphanumeric c || c == b'_' || c == b'.' || c == b':' || c == b'-'

-- `[A-Za-z0-9][A-Za-z0-9_.:-]{0,127}`
unfoldable pub is_identifier : List ℕ → Bool
unfolding is_id_char
is_identifier [] = false
is_identifier (c ∷ cs) = is_alphanumeric c && all is_id_char cs && leb (length cs) 127

-- `[0-9]{5}`
unfoldable pub is_parameter_code : List ℕ → Bool
unfolding is_digit
is_parameter_code s = length s == 5 && all is_digit s

-- `[a-f0-9]{64}`
unfoldable pub is_digest : List ℕ → Bool
unfolding is_digit
is_digest s = length s == 64 && all (λ c. is_digit c || leb b'a' c && leb c b'f') s

-- `[A-Za-z0-9_-]{1,128}`
unfoldable pub is_series_id : List ℕ → Bool
unfolding is_alphanumeric
is_series_id s =
    leb 1 (length s)
    && leb (length s) 128
    && all (λ c. is_alphanumeric c || c == b'_' || c == b'-') s

-- `USGS-[0-9]+`
unfoldable pub is_station : List ℕ → Bool
unfolding is_digit
is_station (a ∷ b ∷ c ∷ d ∷ e ∷ f ∷ rest) =
    a == b'U' && b == b'S' && c == b'G' && d == b'S' && e == b'-' && is_digit f && all is_digit rest
is_station _ = false

-- `bounded_source_text`
unfoldable pub bounded_source_text : Texts → List ℕ → Bool → Bool
bounded_source_text t s allow_empty =
    leb (length s) 128 && (ltb 0 (length s) || allow_empty) && all t.printable s

-- Python's order of strings: by code points, a prefix first.
unfoldable pub text_lt : List ℕ → List ℕ → Bool
text_lt _ [] = false
text_lt [] (_ ∷ _) = true
text_lt (a ∷ as') (b ∷ bs) = ltb a b || a == b && text_lt as' bs

-- An accepted identifier has between 1 and 128 characters.
pub is_identifier-length :
    (s : List ℕ) → is_identifier s ≡ true → (ltb 0 (length s) ≡ true) × (leb (length s) 128 ≡ true)
unfolding is_identifier
is_identifier-length [] h = cc
is_identifier-length (c ∷ cs) h = ground arith
