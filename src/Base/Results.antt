-- ===== src/Base/Results.antt =====
-- Python's exceptions as values. A transaction that raises is rolled back, so an error carries no
-- state. One constructor stands for each exception class that the modelled code raises or catches.
use Prim.Native.Nat.{ℕ}
use mathlib.Core.Path.{◌≡◌, refl}
use mathlib.Core.Bool.{Bool, true, false}
use mathlib.Core.Option.{Option, none, some}

-- `SOURCE_ERROR_CODES` of watch/observations.py.
pub data SourceCode : Type 0 where
  schema http transport pagination bounds data_conflict : SourceCode

pub data Fault : Type 0 where
  value_error key_error workflow_conflict lease_lost overflow_error integrity_error : Fault
  conflict in_progress session_not_found budget_exhausted : Fault
  delivery_held allowance_exceeded : Fault
  source_error : SourceCode → Option ℕ → Fault

-- What a call raises or returns.
pub data Result {ℓ} (X : Type ℓ) : Type ℓ where
  err : Fault → Result X
  ok : X → Result X

infixl 5 ◌>>=◌
abbrev pub ◌>>=◌ {ℓ κ} : {X : Type ℓ} {Y : Type κ} → Result X → (X → Result Y) → Result Y
err fault >>= next = err fault
ok x >>= next = next x

-- A check, and what follows it.
infixl 5 ◌>>◌
abbrev pub ◌>>◌ {κ} : {Y : Type κ} → Result (Unit {0}) → Result Y → Result Y
check >> rest = check >>= λ _. rest

-- `if condition: raise fault`
abbrev pub raise_if : Bool → Fault → Result (Unit {0})
raise_if true e = err e
raise_if false e = ok tt

abbrev pub or_raise {ℓ} : {A : Type ℓ} → Option A → Fault → Result A
or_raise none e = err e
or_raise (some a) e = ok a

-- A sequence that returned: what its first call returned, and what the rest made of it.
pub >>=-eq-ok {ℓ κ} :
    {X : Type ℓ} {Y : Type κ} (call : Result X) (next : X → Result Y) {y : Y}
    → (call >>= next) ≡ ok y
    → (x : X) × (call ≡ ok x) × (next x ≡ ok y)
>>=-eq-ok (err fault) next h = cc
>>=-eq-ok (ok x) next h = (x, refl, h)

-- A check that passed can be left out.
pub >>-eq-ok {ℓ} :
    {B : Type ℓ} (m : Result (Unit {0})) (k : Result B) {b : B} → (m >> k) ≡ ok b → k ≡ ok b
>>-eq-ok (ok a) k h = h
>>-eq-ok (err e) k h = cc
