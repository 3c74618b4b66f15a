-- ===== src/Base/Keys.antt =====
-- Rows that a key keeps apart, and updates of the rows with a key.
use Prim.Native.Nat.{ℕ, suc, ◌+◌, ◌≤◌}
use mathlib.Core.Path.{◌≡◌, refl}
use mathlib.Core.Logic.{inl, inr}
use mathlib.Core.Bool.{Bool, true, false}
use mathlib.Core.Option.{none, some}
use mathlib.Core.List.{List, [], ◌∷◌, ◌++◌}
use native.Mathlib.Omega.{arith}
use watershed_memory.Base.Tests.{Bool-cases}
use watershed_memory.Base.Table.{find, update, count, count-append, update_absent}

module _ {ℓ} {A : Type ℓ} where
  -- What a search finds counts.
  pub count-find :
      (p q : A → Bool) (xs : List A) (a : A) → find p xs ≡ some a → q a ≡ true → 1 ≤ count q xs
  unfolding find count
  count-find p q [] a e h = cc
  count-find p q (x ∷ xs) a e h = elim (Bool-cases (p x)) [
    | inl hit ↦ ground arith
    | inr miss ↦ ground (arith, count-find p q xs a)
  ]

  -- A row with a key is the one that a search for the key finds.
  pub find_unique :
      (p q : A → Bool) (xs : List A) (a : A)
      → find p xs ≡ some a
      → q a ≡ true
      → count q xs ≤ 1
      → find q xs ≡ some a
  unfolding find count
  find_unique p q [] a e h once = cc
  find_unique p q (x ∷ xs) a e h once = elim (Bool-cases (p x)) [
    | inl hit ↦ ground arith
    | inr miss ↦ ground (arith, find_unique p q xs a, count-find p q xs a)
  ]

  -- A found row that is among those updated is found updated.
  pub find-update_within :
      (p q : A → Bool) (f : A → A) (xs : List A) (a : A)
      → find p xs ≡ some a
      → q a ≡ true
      → ((b : A) → q b ≡ true → p (f b) ≡ true)
      → ((b : A) → q b ≡ true → p b ≡ true)
      → find p (update q f xs) ≡ some (f a)
  unfolding find update
  find-update_within p q f [] a e h keeps within = cc
  find-update_within p q f (x ∷ xs) a e h keeps within = elim (Bool-cases (p x)) [
    | inl hit ↦ ground (arith, keeps x)
    | inr miss ↦
        ground (arith, find-update_within p q f xs a (ground arith) h keeps within, within x)
  ]

  -- Updated rows that no longer satisfy a test are no longer counted.
  pub count-update_drop :
      (p q : A → Bool) (f : A → A) (xs : List A)
      → ((a : A) → q a ≡ true → p a ≡ true)
      → ((a : A) → q a ≡ true → p (f a) ≡ false)
      → count p (update q f xs) + count q xs ≡ count p xs
  unfolding count update
  count-update_drop p q f [] within drops = omega arith
  count-update_drop p q f (x ∷ xs) within drops =
      ground (arith, count-update_drop p q f xs within drops, within x, drops x)

  pub count-snoc_le :
      (p : A → Bool) (xs : List A) (x : A) (n : ℕ)
      → count p xs ≤ n
      → (p x ≡ true → suc (count p xs) ≤ n)
      → count p (xs ++ x ∷ []) ≤ n
  unfolding count
  count-snoc_le p xs x n h k = rw (count-append p xs (x ∷ [])) (ground arith)

  -- The one row that a search finds leaves a test when its update no longer satisfies it.
  pub count-update_leave :
      (p q : A → Bool) (f : A → A) (xs : List A) (a : A)
      → count q xs ≤ 1
      → find q xs ≡ some a
      → p a ≡ true
      → p (f a) ≡ false
      → suc (count p (update q f xs)) ≡ count p xs
  unfolding count update find
  count-update_leave p q f [] a once e h k = cc
  count-update_leave p q f (x ∷ xs) a once e h k = elim (Bool-cases (q x)) [
    | inl hit ↦ ground (arith, update_absent q f xs)
    | inr miss ↦ ground (arith, count-update_leave p q f xs a)
  ]

  -- A search finds no row when none is counted.
  pub find_uncounted : (p : A → Bool) (xs : List A) → count p xs ≡ 0 → find p xs ≡ none
  unfolding count find
  find_uncounted p [] h = refl
  find_uncounted p (x ∷ xs) h = ground (arith, find_uncounted p xs)
