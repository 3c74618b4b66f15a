-- ===== src/Base/Table.antt =====
-- SQL tables as lists of rows in insertion order: SELECT, UPDATE and DELETE with a WHERE clause.
use mathlib.Core.Option
use Prim.Native.Nat.{ℕ, suc, ◌+◌, ◌≤◌}
use mathlib.Core.Path.{◌≡◌, refl}
use mathlib.Core.Logic.{inl, inr}
use mathlib.Core.Bool.{Bool, true, false}
use mathlib.Core.Option.{Option, none, some}
use mathlib.Core.List.{List, [], ◌∷◌, ◌++◌}
use native.Mathlib.Omega.{arith}
use watershed_memory.Base.Lists.{All}
use watershed_memory.Base.Tests.{if◌then◌else◌, Bool-cases, is_some}

module _ {ℓ} {A : Type ℓ} where
  -- `SELECT … WHERE p LIMIT 1`
  unfoldable pub find : (A → Bool) → List A → Option A
  find p [] = none
  find p (x ∷ xs) = if p x then some x else find p xs

  -- `SELECT … WHERE p`
  unfoldable pub select : (A → Bool) → List A → List A
  select p [] = []
  select p (x ∷ xs) = let rest = select p xs in if p x then x ∷ rest else rest

  -- `DELETE … WHERE p`
  unfoldable pub delete : (A → Bool) → List A → List A
  delete p [] = []
  delete p (x ∷ xs) = let rest = delete p xs in if p x then rest else x ∷ rest

  -- `UPDATE … SET f WHERE p`
  unfoldable pub update : (A → Bool) → (A → A) → List A → List A
  update p f [] = []
  update p f (x ∷ xs) = (if p x then f x else x) ∷ update p f xs

  -- `SELECT COUNT(*) … WHERE p`
  unfoldable pub count : (A → Bool) → List A → ℕ
  count p [] = 0
  count p (x ∷ xs) = if p x then suc (count p xs) else count p xs

  pub find-append_none :
      (p : A → Bool) (xs ys : List A) → find p xs ≡ none → find p (xs ++ ys) ≡ find p ys
  unfolding find
  find-append_none p [] ys h = refl
  find-append_none p (x ∷ xs) ys h = ground (arith, find-append_none p xs ys)

  pub find-append_some :
      (p : A → Bool) (xs ys : List A) (a : A) → find p xs ≡ some a → find p (xs ++ ys) ≡ some a
  unfolding find
  find-append_some p [] ys a h = cc
  find-append_some p (x ∷ xs) ys a h = ground (arith, find-append_some p xs ys a)

  -- What is found satisfies the test.
  pub find_sound : (p : A → Bool) (xs : List A) (a : A) → find p xs ≡ some a → p a ≡ true
  unfolding find
  find_sound p [] a h = cc
  find_sound p (x ∷ xs) a h = elim (Bool-cases (p x)) [
    | inl yes_x ↦ ground (arith, find_sound p xs a)
    | inr no_x ↦ ground (arith, find_sound p xs a)
  ]

  pub is_some-find-append :
      (p : A → Bool) (xs ys : List A)
      → is_some (find p xs) ≡ true
      → is_some (find p (xs ++ ys)) ≡ true
  unfolding find
  is_some-find-append p [] ys h = cc
  is_some-find-append p (x ∷ xs) ys h = ground (arith, is_some-find-append p xs ys)

  pub is_some-find-snoc :
      (p : A → Bool) (xs : List A) (y : A) → p y ≡ true → is_some (find p (xs ++ y ∷ [])) ≡ true
  unfolding find
  is_some-find-snoc p [] y h = ground arith
  is_some-find-snoc p (x ∷ xs) y h = ground (arith, is_some-find-snoc p xs y h)

  pub find-delete_self : (p : A → Bool) (xs : List A) → find p (delete p xs) ≡ none
  unfolding find delete
  find-delete_self p [] = refl
  find-delete_self p (x ∷ xs) = ground (arith, find-delete_self p xs)

  -- A search within what was deleted finds nothing.
  pub find-delete_within :
      (p q : A → Bool) (xs : List A)
      → ((a : A) → p a ≡ true → q a ≡ true)
      → find p (delete q xs) ≡ none
  unfolding find delete
  find-delete_within p q [] h = refl
  find-delete_within p q (x ∷ xs) h = ground (arith, find-delete_within p q xs h, h x)

  pub find-delete_other :
      (p q : A → Bool) (xs : List A)
      → ((a : A) → p a ≡ true → q a ≡ false)
      → find p (delete q xs) ≡ find p xs
  unfolding find delete
  find-delete_other p q [] h = refl
  find-delete_other p q (x ∷ xs) h = ground (arith, find-delete_other p q xs h, h x)

  pub find-update_self :
      (p : A → Bool) (f : A → A) (xs : List A)
      → ((a : A) → p a ≡ true → p (f a) ≡ true)
      → find p (update p f xs) ≡ Option.map f (find p xs)
  unfolding find update
  find-update_self p f [] h = refl
  find-update_self p f (x ∷ xs) h = ground (arith, find-update_self p f xs h, h x)

  pub find-update_other :
      (p q : A → Bool) (f : A → A) (xs : List A)
      → ((a : A) → q a ≡ true → p a ≡ false)
      → ((a : A) → q a ≡ true → p (f a) ≡ false)
      → find p (update q f xs) ≡ find p xs
  unfolding find update
  find-update_other p q f [] h k = refl
  find-update_other p q f (x ∷ xs) h k = ground (arith, find-update_other p q f xs h k, h x, k x)

  pub count-append : (p : A → Bool) (xs ys : List A) → count p (xs ++ ys) ≡ count p xs + count p ys
  unfolding count
  count-append p [] ys = omega arith
  count-append p (x ∷ xs) ys = ground (arith, count-append p xs ys)

  pub count-update :
      (p q : A → Bool) (f : A → A) (xs : List A)
      → ((a : A) → q a ≡ true → p (f a) ≡ p a)
      → count p (update q f xs) ≡ count p xs
  unfolding count update
  count-update p q f [] h = refl
  count-update p q f (x ∷ xs) h = ground (arith, count-update p q f xs h, h x)

  -- A row that a search finds is counted.
  pub count-is_some : (p : A → Bool) (xs : List A) → is_some (find p xs) ≡ true → 1 ≤ count p xs
  unfolding count find
  count-is_some p [] h = cc
  count-is_some p (x ∷ xs) h = ground (arith, count-is_some p xs)

  -- A row that a search misses is not counted.
  pub count-none : (p : A → Bool) (xs : List A) → find p xs ≡ none → count p xs ≡ 0
  unfolding count find
  count-none p [] h = refl
  count-none p (x ∷ xs) h = ground (arith, count-none p xs)

module _ {ℓ} {A : Type ℓ} where
  pub count_mono :
      (p q : A → Bool) (xs : List A) → ((a : A) → p a ≡ true → q a ≡ true) → count p xs ≤ count q xs
  unfolding count
  count_mono p q [] h = omega arith
  count_mono p q (x ∷ xs) h = ground (arith, count_mono p q xs h, h x)

  pub update_absent : (q : A → Bool) (f : A → A) (xs : List A) → count q xs ≡ 0 → update q f xs ≡ xs
  unfolding count update
  update_absent q f [] h = refl
  update_absent q f (x ∷ xs) h = ground (arith, update_absent q f xs)

  -- An update of the one row that a search finds, after which no test holds of it that did not hold.
  pub count-update_le :
      (p q : A → Bool) (f : A → A) (xs : List A) (a : A)
      → count q xs ≤ 1
      → find q xs ≡ some a
      → (p (f a) ≡ true → p a ≡ true)
      → count p (update q f xs) ≤ count p xs
  unfolding count update find
  count-update_le p q f [] a once e h = cc
  count-update_le p q f (x ∷ xs) a once e h = elim (Bool-cases (q x)) [
    | inl hit ↦ ground (arith, update_absent q f xs)
    | inr miss ↦ ground (arith, count-update_le p q f xs a)
  ]

module _ {ℓ κ} {A : Type ℓ} (P : A → Type κ) where
  pub All-update :
      (q : A → Bool) (f : A → A) (xs : List A)
      → ((a : A) → P a → P (f a))
      → All P xs
      → All P (update q f xs)
  unfolding update
  All-update q f [] k h = tt
  All-update q f (x ∷ xs) k h = elim (Bool-cases (q x)) [
    | inl hit ↦ rw hit (k x h.0, All-update q f xs k h.1)
    | inr miss ↦ rw miss (h.0, All-update q f xs k h.1)
  ]

  pub All-find : (q : A → Bool) (xs : List A) (a : A) → All P xs → find q xs ≡ some a → P a
  unfolding find
  All-find q [] a h e = cc
  All-find q (x ∷ xs) a h e = elim (Bool-cases (q x)) [
    | inl hit ↦ let e' : x ≡ a = ground arith in rw (← e') h.0
    | inr miss ↦ All-find q xs a h.1 (ground arith)
  ]
