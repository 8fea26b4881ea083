-- ===== src/Base/Reorder.antt =====
-- Lists and association lists in another order.
use Prim.Native.Nat.{ℕ}
use mathlib.Core.Bool.{Bool}
use mathlib.Core.List.{List, [], ◌∷◌, ◌++◌, map, Permᴰ, append_assoc}
use mathlib.Core.Path.{◌≡◌, refl, sym, ◌∙◌, subst, ap}
use native.Mathlib.Omega.{arith}
use meesign_server.Base.Lists.{keep, sum}
use meesign_server.Base.Map.{Map, get, IsMap}
use meesign_server.Base.Tests.{Eq}
use mathlib.Core.List.Permᴰ

module _ {ℓ κ} {A : Type ℓ} {B : Type κ} where
  pub Perm-map : (f : A → B) {xs ys : List A} → Permᴰ xs ys → Permᴰ (map f xs) (map f ys)
  Perm-map f Permᴰ.nil = Permᴰ.nil
  Perm-map f (Permᴰ.cons e h) = Permᴰ.cons (ap f e) (Perm-map f h)
  Perm-map f (Permᴰ.swap e g) = Permᴰ.swap (ap f e) (ap f g)
  Perm-map f (Permᴰ.trans h g) = Permᴰ.trans (Perm-map f h) (Perm-map f g)

  -- A function that treats the elements one by one, each into none, one or more.
  module _ (f : List A → List B)
      (step : (x : A) (xs : List A) → f (x ∷ xs) ≡ f (x ∷ []) ++ f xs) where
    head_tail : (x : A) {xs ys : List A} → Permᴰ (f xs) (f ys) → Permᴰ (f (x ∷ xs)) (f (x ∷ ys))
    head_tail x {xs} {ys} h = rw (step x xs, step x ys) (Permᴰ.append_left (f (x ∷ [])) h)

    two_heads : (x y : A) (xs : List A) → Permᴰ (f (x ∷ y ∷ xs)) (f (y ∷ x ∷ xs))
    two_heads x y xs =
        rw
          (
            step x (y ∷ xs),
            step y xs,
            step y (x ∷ xs),
            step x xs,
            sym (append_assoc (f (x ∷ [])) (f (y ∷ [])) (f xs)),
            sym (append_assoc (f (y ∷ [])) (f (x ∷ [])) (f xs)),
          )
          (Permᴰ.append_right (f xs) (Permᴰ.append_comm (f (x ∷ [])) (f (y ∷ []))))

    pub Perm-each : {xs ys : List A} → Permᴰ xs ys → Permᴰ (f xs) (f ys)
    Perm-each Permᴰ.nil = Permᴰ.refl (f [])
    Perm-each (Permᴰ.cons {a} {b} {l₁} {l₂} e h) =
        subst (λ y. Permᴰ (f (a ∷ l₁)) (f (y ∷ l₂))) e (head_tail a (Perm-each h))
    Perm-each (Permᴰ.swap {a} {b} {a'} {b'} {l} e g) =
        subst (λ y. Permᴰ (f (a ∷ b ∷ l)) (f (a' ∷ y ∷ l))) e
          (subst (λ y. Permᴰ (f (a ∷ b ∷ l)) (f (y ∷ a ∷ l))) g (two_heads a b l))
    Perm-each (Permᴰ.trans h g) = Permᴰ.trans (Perm-each h) (Perm-each g)

pub Perm-keep {ℓ} :
    {A : Type ℓ} (p : A → Bool) {xs ys : List A} → Permᴰ xs ys → Permᴰ (keep p xs) (keep p ys)
Perm-keep p h = Perm-each (keep p) (λ x xs. ground arith) h

pub sum-Perm : {xs ys : List ℕ} → Permᴰ xs ys → sum xs ≡ sum ys
unfolding sum
sum-Perm Permᴰ.nil = refl
sum-Perm (Permᴰ.cons e h) = omega (arith, e, sum-Perm h)
sum-Perm (Permᴰ.swap e f) = omega (arith, e, f)
sum-Perm (Permᴰ.trans h g) = sum-Perm h ∙ sum-Perm g

-- A map with its entries in another order is a map and looks up the same values.
module _ {ℓ κ} {K : Type ℓ} {V : Type κ} ⦃e : Eq K⦄ where
  pub get-Perm : {m n : Map K V} → Permᴰ m n → IsMap m → IsMap n × ((k : K) → get k n ≡ get k m)
  unfolding get
  get-Perm Permᴰ.nil h = (tt, λ k. refl)
  get-Perm (Permᴰ.cons {a = (j, v)} {b = (i, w)} {l₁} {l₂} s p) h =
      let (once, same) = get-Perm p h.1 in
      subst (λ (x : K × V). IsMap (x ∷ l₂) × ((k : K) → get k (x ∷ l₂) ≡ get k ((j, v) ∷ l₁))) s
        ((same j ∙ h.0, once), λ k. rw (same k) refl)
  get-Perm (Permᴰ.swap {a = (j, v)} {b = (i, w)} {a'} {b'} {l} s t) h =
      subst
        (λ (x : K × V).
          IsMap (a' ∷ x ∷ l) × ((k : K) → get k (a' ∷ x ∷ l) ≡ get k ((j, v) ∷ (i, w) ∷ l)))
        s
        (subst
          (λ (x : K × V).
            IsMap (x ∷ (j, v) ∷ l)
            × ((k : K) → get k (x ∷ (j, v) ∷ l) ≡ get k ((j, v) ∷ (i, w) ∷ l)))
          t
          (
            ground (arith, h.0, h.1, e.beq_iff i j, e.beq_iff j i),
            λ k. ground (arith, h.0, e.beq_iff i k, e.beq_iff j k, e.beq_iff i j),
          ))
  get-Perm (Permᴰ.trans p q) h =
      let (m1, same1) = get-Perm p h in
      let (m2, same2) = get-Perm q m1 in (m2, λ k. same2 k ∙ same1 k)
