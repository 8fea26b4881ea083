-- ===== src/Base/Lists.antt =====
-- Lists measured by native numbers, under the library's names, and the list functions of the
-- standard library that the program calls.
use Prim.Native.Nat.{ℕ, zero, suc, ◌+◌}
use mathlib.Core.Bool.{Bool, true, false}
use mathlib.Core.List.{List, [], ◌∷◌, ◌++◌, map}
use mathlib.Core.Option.{Option, none, some}
use mathlib.Core.Path.{◌≡◌, refl, ap}
use native.Mathlib.Omega.{arith}
use meesign_server.Base.Tests.{if◌then◌else◌, leb}

module _ {ℓ} {A : Type ℓ} where
  abbrev pub length : List A → ℕ
  length [] = 0
  length (x ∷ xs) = suc (length xs)

  abbrev pub replicate : ℕ → A → List A
  replicate zero a = []
  replicate (suc n) a = a ∷ replicate n a

  -- `iter().filter(p)`.
  abbrev pub keep : (A → Bool) → List A → List A
  keep p [] = []
  keep p (x ∷ xs) = let rest = keep p xs in if p x then x ∷ rest else rest

  -- `iter().find(p)`.
  abbrev pub find : (A → Bool) → List A → Option A
  find p [] = none
  find p (x ∷ xs) = let rest = find p xs in if p x then some x else rest

  -- `iter().any(p)`.
  abbrev pub any : (A → Bool) → List A → Bool
  any p [] = false
  any p (x ∷ xs) = let rest = any p xs in if p x then true else rest

  -- The insertion of a stable sort by `le`.
  unfoldable pub sorted_insert : (A → A → Bool) → A → List A → List A
  sorted_insert le a [] = a ∷ []
  sorted_insert le a (x ∷ xs) =
      let rest = x ∷ sorted_insert le a xs in if le a x then a ∷ x ∷ xs else rest

  -- `sort_by`, stable.
  unfoldable pub sort_by : (A → A → Bool) → List A → List A
  unfolding sorted_insert
  sort_by le [] = []
  sort_by le (x ∷ xs) = sorted_insert le x (sort_by le xs)

  pub length-append : (xs ys : List A) → length (xs ++ ys) ≡ length xs + length ys
  length-append [] ys = omega arith
  length-append (x ∷ xs) ys = omega (arith, length-append xs ys)

  pub length-replicate : (n : ℕ) (a : A) → length (replicate n a) ≡ n
  length-replicate zero a = refl
  length-replicate (suc n) a = ap suc (length-replicate n a)

  pub length-sorted_insert :
      (le : A → A → Bool) (a : A) (xs : List A) → length (sorted_insert le a xs) ≡ suc (length xs)
  unfolding sorted_insert
  length-sorted_insert le a [] = refl
  length-sorted_insert le a (x ∷ xs) = ground (arith, length-sorted_insert le a xs)

  pub length-sort_by : (le : A → A → Bool) (xs : List A) → length (sort_by le xs) ≡ length xs
  unfolding sort_by
  length-sort_by le [] = refl
  length-sort_by le (x ∷ xs) =
      omega (arith, length-sorted_insert le x (sort_by le xs), length-sort_by le xs)

module _ {ℓ κ} {A : Type ℓ} {B : Type κ} where
  pub length-map : (f : A → B) (xs : List A) → length (map f xs) ≡ length xs
  length-map f [] = refl
  length-map f (x ∷ xs) = ap suc (length-map f xs)

  -- `zip` stops at the end of the shorter list.
  abbrev pub zip : List A → List B → List (A × B)
  zip [] ys = []
  zip (x ∷ xs) [] = []
  zip (x ∷ xs) (y ∷ ys) = (x, y) ∷ zip xs ys

-- The `sum` of a sequence of numbers, without a bound.
unfoldable pub sum : List ℕ → ℕ
sum [] = 0
sum (x ∷ xs) = x + sum xs

-- `sort` on indices.
unfoldable pub sort : List ℕ → List ℕ
unfolding sort_by
sort xs = sort_by leb xs

module _ {ℓ} {A : Type ℓ} where
  pub any-sorted_insert :
      (p : A → Bool) (le : A → A → Bool) (a : A) (xs : List A)
      → any p (sorted_insert le a xs) ≡ (if p a then true else any p xs)
  unfolding sorted_insert
  any-sorted_insert p le a [] = refl
  any-sorted_insert p le a (x ∷ xs) = ground (arith, any-sorted_insert p le a xs)

  -- Sorting does not change whether some element passes a test.
  pub any-sort_by :
      (p : A → Bool) (le : A → A → Bool) (xs : List A) → any p (sort_by le xs) ≡ any p xs
  unfolding sort_by
  any-sort_by p le [] = refl
  any-sort_by p le (x ∷ xs) =
      ground (arith, any-sorted_insert p le x (sort_by le xs), any-sort_by p le xs)

pub any-sort : (p : ℕ → Bool) (xs : List ℕ) → any p (sort xs) ≡ any p xs
unfolding sort
any-sort p xs = any-sort_by p leb xs

pub length-sort : (xs : List ℕ) → length (sort xs) ≡ length xs
unfolding sort
length-sort xs = length-sort_by leb xs
