-- ===== src/Base/All.antt =====
-- Predicates on the elements of lists, and their passage through the library functions.
use Prim.Native.Nat.{ℕ, ◌≤◌}
use mathlib.Core.Bool.{Bool, true, false}
use mathlib.Core.List.{List, [], ◌∷◌, map}
use mathlib.Core.Logic.{inl, inr, ◌≢◌}
use mathlib.Core.Option.{some}
use mathlib.Core.Path.{◌≡◌, refl, sym}
use native.Mathlib.Omega.{arith}
use meesign_server.Base.Lists.{sort, length, any, sort_by, sorted_insert, zip}
use meesign_server.Base.Map.{Map, get, insert, extend, contains_key, get-insert, Covers, IsMap}
use meesign_server.Base.Tests.{leb, Eq, Bool-cases}

abbrev pub All {ℓ κ} : {A : Type ℓ} → (A → Type κ) → List A → Type κ
All P [] = Unit
All P (x ∷ xs) = P x × All P xs

module _ {ℓ κ} {A : Type ℓ} (P : A → Type κ) where
  pub All-sorted_insert :
      (le : A → A → Bool) (a : A) (xs : List A) → P a → All P xs → All P (sorted_insert le a xs)
  unfolding sorted_insert
  All-sorted_insert le a [] p h = (p, tt)
  All-sorted_insert le a (x ∷ xs) p h = elim (Bool-cases (le a x)) [
    | inl le_x ↦ rw le_x (p, h)
    | inr gt_x ↦ rw gt_x (h.0, All-sorted_insert le a xs p h.1)
  ]

  pub All-sort_by : (le : A → A → Bool) (xs : List A) → All P xs → All P (sort_by le xs)
  unfolding sort_by
  All-sort_by le [] h = tt
  All-sort_by le (x ∷ xs) h = All-sorted_insert le x (sort_by le xs) h.0 (All-sort_by le xs h.1)

  All-sorted_insert_back :
      (le : A → A → Bool) (a : A) (xs : List A) → All P (sorted_insert le a xs) → P a × All P xs
  unfolding sorted_insert
  All-sorted_insert_back le a [] h = h
  All-sorted_insert_back le a (x ∷ xs) h = elim (Bool-cases (le a x)) [
    | inl le_x ↦ rw le_x at h
    | inr gt_x ↦
        let h' : P x × All P (sorted_insert le a xs) = rw gt_x at h in
        let (p, hs) = All-sorted_insert_back le a xs h'.1 in (p, (h'.0, hs))
  ]

  pub All-sort_by_back : (le : A → A → Bool) (xs : List A) → All P (sort_by le xs) → All P xs
  unfolding sort_by
  All-sort_by_back le [] h = h
  All-sort_by_back le (x ∷ xs) h =
      let (p, hs) = All-sorted_insert_back le x (sort_by le xs) h in (p, All-sort_by_back le xs hs)

  pub All-zip {ι} :
      {B : Type ι} (xs : List A) (ys : List B) → All P xs → All (λ p. P p.0) (zip xs ys)
  All-zip [] ys h = tt
  All-zip (x ∷ xs) [] h = tt
  All-zip (x ∷ xs) (y ∷ ys) h = (h.0, All-zip xs ys h.1)

  pub All-mono {ι} : {Q : A → Type ι} → ((a : A) → P a → Q a) → (xs : List A) → All P xs → All Q xs
  All-mono f [] h = tt
  All-mono f (x ∷ xs) h = (f x h.0, All-mono f xs h.1)

  pub map_congr {ι} :
      {B : Type ι} (f g : A → B)
      → ((a : A) → P a → f a ≡ g a)
      → (xs : List A) → All P xs
      → map f xs ≡ map g xs
  map_congr f g e [] h = refl
  map_congr f g e (x ∷ xs) h = ground (arith, e x h.0, map_congr f g e xs h.1)

  pub any_congr :
      (p q : A → Bool)
      → ((a : A) → P a → p a ≡ q a)
      → (xs : List A) → All P xs
      → any p xs ≡ any q xs
  any_congr p q e [] h = refl
  any_congr p q e (x ∷ xs) h = ground (arith, e x h.0, any_congr p q e xs h.1)

pub any_none {ℓ} :
    {A : Type ℓ} (p : A → Bool) (xs : List A) → All (λ a. p a ≡ false) xs → any p xs ≡ false
any_none p [] h = refl
any_none p (x ∷ xs) h = ground (arith, any_none p xs h.1)

module _ {ℓ} {K : Type ℓ} where
  -- No element occurs twice.
  abbrev pub Distinct : List K → Type ℓ
  Distinct [] = Unit
  Distinct (k ∷ ks) = All (λ j. j ≢ k) ks × Distinct ks

  Distinct-sorted_insert :
      (le : K → K → Bool) (a : K) (xs : List K)
      → All (λ j. j ≢ a) xs
      → Distinct xs
      → Distinct (sorted_insert le a xs)
  unfolding sorted_insert
  Distinct-sorted_insert le a [] p h = (tt, tt)
  Distinct-sorted_insert le a (x ∷ xs) p h = elim (Bool-cases (le a x)) [
    | inl le_x ↦ rw le_x (p, h)
    | inr gt_x ↦ rw gt_x (
      All-sorted_insert (λ j. j ≢ x) le a xs (λ q. p.0 (sym q)) h.0,
      Distinct-sorted_insert le a xs p.1 h.1,
    )
  ]

  pub Distinct-sort_by : (le : K → K → Bool) (xs : List K) → Distinct xs → Distinct (sort_by le xs)
  unfolding sort_by
  Distinct-sort_by le [] h = tt
  Distinct-sort_by le (x ∷ xs) h =
      Distinct-sorted_insert le x (sort_by le xs) (All-sort_by (λ j. j ≢ x) le xs h.0)
        (Distinct-sort_by le xs h.1)

module _ {ℓ κ} {K : Type ℓ} {V : Type κ} ⦃e : Eq K⦄ where
  -- The entries of a map are those that its keys look up.
  pub entries : (m : Map K V) → IsMap m → All (λ p. get p.0 m ≡ some p.1) m
  unfolding get
  entries [] h = tt
  entries ((k, v) ∷ m) h = (
    ground (arith, e.beq_iff k k),
    All-mono (λ p. get p.0 m ≡ some p.1) (λ p found. ground (arith, e.beq_iff k p.0, h.0, found)) m
        (entries m h.1),
  )

  -- What `extend` leaves under a key that it is not given.
  pub get-extend_absent :
      (k : K) (m : Map K V) (xs : List (K × V))
      → All (λ p. p.0 ≢ k) xs
      → get k (extend m xs) ≡ get k m
  unfolding extend
  get-extend_absent k m [] h = refl
  get-extend_absent k m ((j, v) ∷ xs) h =
      ground
        (arith, get-extend_absent k (insert j v m) xs h.1, get-insert j k v m, e.beq_iff j k, h.0)

  pub contains_key-extend :
      (k : K) (m : Map K V) (xs : List (K × V))
      → contains_key k m ≡ true
      → contains_key k (extend m xs) ≡ true
  unfolding extend
  contains_key-extend k m [] h = h
  contains_key-extend k m ((j, v) ∷ xs) h =
      contains_key-extend k (insert j v m) xs (ground (arith, get-insert j k v m))

  pub extend-Covers {ι} :
      {W : Type ι} (m : Map K V) (xs : List (K × V)) (b : Map K W)
      → Covers m b
      → All (λ p. contains_key p.0 b ≡ true) xs
      → Covers (extend m xs) b
  unfolding extend
  extend-Covers m [] b c h = c
  extend-Covers m ((j, v) ∷ xs) b c h =
      extend-Covers (insert j v m) xs b
        (λ k g. ground (arith, get-insert j k v m, e.beq_iff j k, c k, h.0)) h.1

  -- Where there are as many values as keys, `extend` enters every key.
  pub contains_key-extend-zip :
      (m : Map K V) (ks : List K) (vs : List V)
      → length ks ≤ length vs
      → All (λ k. contains_key k (extend m (zip ks vs)) ≡ true) ks
  unfolding extend
  contains_key-extend-zip m [] vs h = tt
  contains_key-extend-zip m (k ∷ ks) [] h = absurd (elim h [ ])
  contains_key-extend-zip m (k ∷ ks) (v ∷ vs) h = (
    contains_key-extend k (insert k v m) (zip ks vs)
        (ground (arith, get-insert k k v m, e.beq_iff k k)),
    contains_key-extend-zip (insert k v m) ks vs (ground arith),
  )

  -- The entry of every pair, where the keys are distinct.
  pub get-extend-zip :
      (m : Map K V) (ks : List K) (vs : List V)
      → Distinct ks
      → All (λ p. get p.0 (extend m (zip ks vs)) ≡ some p.1) (zip ks vs)
  unfolding extend
  get-extend-zip m [] vs h = tt
  get-extend-zip m (k ∷ ks) [] h = tt
  get-extend-zip m (k ∷ ks) (v ∷ vs) h = (
    ground (
      arith,
      get-extend_absent k (insert k v m) (zip ks vs) (All-zip (λ j. j ≢ k) ks vs h.0),
      get-insert k k v m,
      e.beq_iff k k,
    ),
    get-extend-zip (insert k v m) ks vs h.1,
  )

pub All-sort {κ} : (P : ℕ → Type κ) (xs : List ℕ) → All P xs → All P (sort xs)
unfolding sort
All-sort P xs h = All-sort_by P leb xs h

pub Distinct-sort : (xs : List ℕ) → Distinct xs → Distinct (sort xs)
unfolding sort
Distinct-sort xs h = Distinct-sort_by leb xs h
