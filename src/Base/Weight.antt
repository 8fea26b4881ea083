-- ===== src/Base/Weight.antt =====
-- Weights of the entries of a map, and their sums.
use Prim.Native.Nat.{ℕ, ◌+◌, ◌≤◌}
use mathlib.Core.List.{[], ◌∷◌}
use mathlib.Core.Logic.{inl, inr}
use mathlib.Core.Option.{Option, none, some}
use mathlib.Core.Path.{◌≡◌, refl}
use native.Mathlib.Omega.{arith}
use meesign_server.Base.Map.{Map, get, remove, IsMap, get-remove, remove-IsMap, remove_absent}
use meesign_server.Base.Tests.{Option-cases, Eq, Bool-cases}

module _ {ℓ κ} {K : Type ℓ} {V : Type κ} (f : V → ℕ) where
  abbrev pub weight : Map K V → ℕ
  weight [] = 0
  weight ((k, v) ∷ m) = f v + weight m

module _ {ℓ κ} {K : Type ℓ} {V : Type κ} ⦃e : Eq K⦄ (f : V → ℕ) where
  weight-remove :
      (k : K) (v : V) (m : Map K V)
      → IsMap m
      → get k m ≡ some v
      → weight f m ≡ f v + weight f (remove k m)
  unfolding get remove
  weight-remove k v [] h g = cc
  weight-remove k v ((j, w) ∷ m) h g = elim (Bool-cases (e.beq j k)) [
    | inl hit ↦ rw hit (ground (arith, remove_absent k m, e.beq_iff j k, h.0))
    | inr miss ↦ rw miss (ground (arith, weight-remove k v m h.1))
  ]

-- Each entry of the one map has an entry of the other under its key that weighs as much or more.
abbrev pub Outweighs {ℓ κ ι} :
    {K : Type ℓ} {V : Type κ} {W : Type ι} ⦃e : Eq K⦄ (f : V → ℕ) (g : W → ℕ)
    → Map K V
    → Map K W
    → Type (ℓ ⊔ κ ⊔ ι)
Outweighs {K} {V} {W} f g a b =
    (k : K) (v : V) → get k a ≡ some v → (w : W) × (get k b ≡ some w) × (f v ≤ g w)

module _ {ℓ κ ι} {K : Type ℓ} {V : Type κ} {W : Type ι} ⦃e : Eq K⦄ (f : V → ℕ) (g : W → ℕ) where
  Outweighs-head :
      (k : K) (v : V) (a : Map K V) (b : Map K W)
      → Outweighs f g ((k, v) ∷ a) b
      → (w : W) × (get k b ≡ some w) × (f v ≤ g w)
  unfolding get
  Outweighs-head k v a b h = h k v (rw ((e.beq_iff k k).1 refl) refl)

  Outweighs-tail :
      (k : K) (v : V) (a : Map K V) (b : Map K W)
      → get k a ≡ none
      → Outweighs f g ((k, v) ∷ a) b
      → Outweighs f g a (remove k b)
  unfolding get
  Outweighs-tail k v a b absent h j u c = elim (Bool-cases (e.beq k j)) [
    | inl hit ↦ absurd (ground (arith, e.beq_iff k j))
    | inr miss ↦
        let (w, found, le) = h j u (rw miss c) in (w, rw (get-remove k j b, miss) found, le)
  ]

  pub weight-le :
      (a : Map K V) (b : Map K W) → IsMap a → IsMap b → Outweighs f g a b → weight f a ≤ weight g b
  weight-le [] b ha hb h = omega arith
  weight-le ((k, v) ∷ a) b ha hb h =
      let (w, found, le) = Outweighs-head k v a b h in
      omega (
        arith,
        weight-remove g k w b hb found,
        weight-le a (remove k b) ha.1 (remove-IsMap k b hb) (Outweighs-tail k v a b ha.0 h),
      )

-- The weight of an entry, if there is one.
abbrev pub weight_of {κ} : {V : Type κ} → (V → ℕ) → Option V → ℕ
weight_of f none = 0
weight_of f (some v) = f v

module _ {ℓ κ} {K : Type ℓ} {V : Type κ} ⦃e : Eq K⦄ (f : V → ℕ) where
  weight-split :
      (k : K) (m : Map K V) → IsMap m → weight f m ≡ weight_of f (get k m) + weight f (remove k m)
  weight-split k m h = elim (Option-cases (get k m)) [
    | inl absent ↦ rw (absent, remove_absent k m absent) (omega arith)
    | inr (v, found) ↦ rw found (weight-remove f k v m h found)
  ]

  -- Maps that give every key the same weight weigh the same.
  pub weight_congr :
      (m n : Map K V)
      → IsMap m
      → IsMap n
      → ((k : K) → weight_of f (get k m) ≡ weight_of f (get k n))
      → weight f m ≡ weight f n
  unfolding get
  weight_congr [] [] hm hn same = refl
  weight_congr [] ((k, v) ∷ n) hm hn same =
      let light : f v ≡ 0 = ground (arith, same k, e.beq_iff k k) in
      ground (arith, weight_congr [] n tt hn.1 (λ j. ground (arith, same j, e.beq_iff k j, hn.0)))
  weight_congr ((k, v) ∷ m) n hm hn same = ground (
    arith,
    same k,
    e.beq_iff k k,
    weight-split k n hn,
    weight_congr m (remove k n) hm.1 (remove-IsMap k n hn)
        (λ j. ground (arith, same j, e.beq_iff k j, hm.0, get-remove k j n)),
  )
