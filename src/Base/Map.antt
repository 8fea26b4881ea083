-- ===== src/Base/Map.antt =====
-- `HashMap` as an association list. The order of entries stands for the unspecified order of
-- iteration: the theorems hold for every order.
use Prim.Native.Nat.{suc, ◌≤◌}
use mathlib.Core.Bool.{Bool, true}
use mathlib.Core.List.{List, [], ◌∷◌, map}
use mathlib.Core.Option.{Option, none, some}
use mathlib.Core.Path.{◌≡◌, refl}
use native.Mathlib.Omega.{arith}
use meesign_server.Base.Lists.{length}
use meesign_server.Base.Tests.{Eq, if◌then◌else◌, is_some}

abbrev pub Map {ℓ κ} : Type ℓ → Type κ → Type (ℓ ⊔ κ)
Map K V = List (K × V)

module _ {ℓ κ} {K : Type ℓ} {V : Type κ} where
  abbrev pub keys : Map K V → List K
  keys m = map (λ p. p.0) m

  abbrev pub values : Map K V → List V
  values m = map (λ p. p.1) m

module _ {ℓ κ} {K : Type ℓ} {V : Type κ} ⦃e : Eq K⦄ where
  unfoldable pub get : K → Map K V → Option V
  get k [] = none
  get k ((j, v) ∷ m) = let rest = get k m in if e.beq j k then some v else rest

  unfoldable pub insert : K → V → Map K V → Map K V
  insert k v [] = (k, v) ∷ []
  insert k v ((j, w) ∷ m) =
      let rest = (j, w) ∷ insert k v m in if e.beq j k then (j, v) ∷ m else rest

  unfoldable pub remove : K → Map K V → Map K V
  remove k [] = []
  remove k ((j, w) ∷ m) = let rest = remove k m in if e.beq j k then rest else (j, w) ∷ rest

  -- `extend`, and `collect` from the empty map: later entries win.
  unfoldable pub extend : Map K V → List (K × V) → Map K V
  unfolding insert
  extend m [] = m
  extend m ((k, v) ∷ xs) = extend (insert k v m) xs

  abbrev pub contains_key : K → Map K V → Bool
  contains_key k m = is_some (get k m)

  pub get-insert :
      (k j : K) (v : V) (m : Map K V)
      → get j (insert k v m) ≡ (if e.beq k j then some v else get j m)
  unfolding get insert
  get-insert k j v [] = refl
  get-insert k j v ((i, w) ∷ m) =
      ground (arith, e.beq_iff i k, e.beq_iff k j, e.beq_iff i j, get-insert k j v m)

  pub get-remove :
      (k j : K) (m : Map K V) → get j (remove k m) ≡ (if e.beq k j then none else get j m)
  unfolding get remove
  get-remove k j [] = ground arith
  get-remove k j ((i, w) ∷ m) =
      ground (arith, e.beq_iff i k, e.beq_iff k j, e.beq_iff i j, get-remove k j m)

  pub get_self-insert : (k : K) (v : V) (m : Map K V) → get k (insert k v m) ≡ some v
  get_self-insert k v m = rw (get-insert k k v m, (e.beq_iff k k).1 refl) refl

  -- No key occurs twice.
  abbrev pub IsMap : Map K V → Type (ℓ ⊔ κ)
  IsMap [] = Unit
  IsMap ((k, v) ∷ m) = (get k m ≡ none) × IsMap m

  pub insert-IsMap : (k : K) (v : V) (m : Map K V) → IsMap m → IsMap (insert k v m)
  unfolding insert
  insert-IsMap k v [] h = (unfold get in refl, tt)
  insert-IsMap k v ((j, w) ∷ m) h =
      ground (arith, e.beq_iff j k, e.beq_iff k j, insert-IsMap k v m h.1, get-insert k j v m)

  pub remove-IsMap : (k : K) (m : Map K V) → IsMap m → IsMap (remove k m)
  unfolding remove
  remove-IsMap k [] h = tt
  remove-IsMap k ((j, w) ∷ m) h = ground (arith, remove-IsMap k m h.1, get-remove k j m)

  pub extend-IsMap : (m : Map K V) (xs : List (K × V)) → IsMap m → IsMap (extend m xs)
  unfolding extend
  extend-IsMap m [] h = h
  extend-IsMap m ((k, v) ∷ xs) h = extend-IsMap (insert k v m) xs (insert-IsMap k v m h)

  pub length-insert :
      (k : K) (v : V) (m : Map K V)
      → length (insert k v m) ≡ (if contains_key k m then length m else suc (length m))
  unfolding insert get
  length-insert k v [] = refl
  length-insert k v ((j, w) ∷ m) = ground (arith, length-insert k v m)

  pub remove_absent : (k : K) (m : Map K V) → get k m ≡ none → remove k m ≡ m
  unfolding get remove
  remove_absent k [] h = refl
  remove_absent k ((j, w) ∷ m) h = ground (arith, remove_absent k m)

  pub length-remove :
      (k : K) (m : Map K V)
      → IsMap m
      → contains_key k m ≡ true
      → length m ≡ suc (length (remove k m))
  unfolding get remove
  length-remove k [] h c = cc
  length-remove k ((j, w) ∷ m) h c =
      ground (arith, e.beq_iff j k, length-remove k m h.1, remove_absent k m)

module _ {ℓ κ ι} {K : Type ℓ} {V : Type κ} {W : Type ι} ⦃e : Eq K⦄ where
  -- Each key of the one map is a key of the other.
  abbrev pub Covers : Map K V → Map K W → Type ℓ
  Covers a b = (k : K) → contains_key k a ≡ true → contains_key k b ≡ true

  Covers-tail :
      (k : K) (v : V) (a : Map K V) (b : Map K W)
      → get k a ≡ none
      → Covers ((k, v) ∷ a) b
      → Covers a (remove k b)
  unfolding get
  Covers-tail k v a b absent h j c = ground (arith, h j, e.beq_iff k j, get-remove k j b)

  Covers-head :
      (k : K) (v : V) (a : Map K V) (b : Map K W) → Covers ((k, v) ∷ a) b → contains_key k b ≡ true
  unfolding get
  Covers-head k v a b h = ground (arith, h k, e.beq_iff k k)

  pub Covers-length-le :
      (a : Map K V) (b : Map K W) → IsMap a → IsMap b → Covers a b → length a ≤ length b
  Covers-length-le [] b ha hb h = omega arith
  Covers-length-le ((k, v) ∷ a) b ha hb h = omega (
    arith,
    length-remove k b hb (Covers-head k v a b h),
    Covers-length-le a (remove k b) ha.1 (remove-IsMap k b hb) (Covers-tail k v a b ha.0 h),
  )

  -- The pigeonhole principle: of two maps of one size the one covers the other both ways.
  pub Covers-back :
      (a : Map K V) (b : Map K W)
      → IsMap a
      → IsMap b
      → Covers a b
      → length a ≡ length b
      → (k : K) → contains_key k b ≡ true
      → contains_key k a ≡ true
  unfolding get
  Covers-back [] [] ha hb h n k c = c
  Covers-back [] (x ∷ b) ha hb h n k c = absurd (omega arith)
  Covers-back ((j, v) ∷ a) b ha hb h n k c = ground (
    arith,
    get-remove j k b,
    length-remove j b hb (Covers-head j v a b h),
    Covers-back a (remove j b) ha.1 (remove-IsMap j b hb) (Covers-tail j v a b ha.0 h)
        (omega (arith, length-remove j b hb (Covers-head j v a b h))) k,
  )
