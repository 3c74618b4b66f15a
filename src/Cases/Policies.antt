-- ===== src/Cases/Policies.antt =====
-- The checks of `CoveragePolicy.__post_init__` in current/fact_types.py.
use watershed_memory.Base.{
  ℕ, Bool, true, false, not, ◌&&◌, ◌||◌, Result, value_error, ◌>>◌, raise_if, List, [], ◌∷◌, length,
  all, elem, leb, ltb, ◌==◌,
}
use watershed_memory.Text.{Texts, is_alphanumeric, is_parameter_code}
use watershed_memory.Cases.Types.{CoveragePolicy}

-- `[A-Za-z0-9][A-Za-z0-9_-]{0,127}`
unfoldable pub is_policy_id : List ℕ → Bool
is_policy_id [] = false
is_policy_id (c ∷ cs) =
    is_alphanumeric c
    && all (λ d. is_alphanumeric d || d == b'_' || d == b'-') cs
    && leb (length cs) 127

-- `len(set(items)) == len(items)`
unfoldable pub is_distinct : List ℕ → Bool
is_distinct [] = true
is_distinct (x ∷ xs) = not (elem x xs) && is_distinct xs

unfoldable pub check_policy : Texts → CoveragePolicy → Result (Unit {0})
check_policy texts p =
    raise_if (not (is_policy_id (texts.chars p.policy_id))) value_error
    >> raise_if
        (length p.required_parameters == 0
          || ltb 16 (length p.required_parameters)
          || not (all (λ code. is_parameter_code (texts.chars code)) p.required_parameters)
          || not (is_distinct p.required_parameters))
        value_error
    >> raise_if (not (leb 1 p.minimum_valid_samples && leb p.minimum_valid_samples 10000))
        value_error
    >> raise_if (not (leb 1 p.freshness_seconds && leb p.freshness_seconds 86400)) value_error
