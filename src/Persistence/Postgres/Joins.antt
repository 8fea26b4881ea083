-- ===== src/Persistence/Postgres/Joins.antt =====
-- The joins of persistence/postgres_repository/group.rs over tables with unique keys.
use meesign_server.Base.{
  ◌≡◌, refl, Bool, List, [], ◌∷◌, ◌++◌, map, Bytes, arith, bytes_eq, pair_eq, bytes_beq,
  bytes_beq_iff, any, keep, if◌then◌else◌,
}
use meesign_server.Base.Map.{Map, get, contains_key, IsMap}
use meesign_server.Persistence.Postgres.{matching, inner_join, select}

module _ {ℓ} {A : Type ℓ} where
  keep-append : (p : A → Bool) (xs ys : List A) → keep p (xs ++ ys) ≡ keep p xs ++ keep p ys
  keep-append p [] ys = refl
  keep-append p (x ∷ xs) ys = ground (arith, keep-append p xs ys)

  map-append {κ} :
      {B : Type κ} (f : A → B) (xs ys : List A) → map f (xs ++ ys) ≡ map f xs ++ map f ys
  map-append f [] ys = refl
  map-append f (x ∷ xs) ys = ground (arith, map-append f xs ys)

  pub keep-map {κ} :
      {B : Type κ} (f : A → B) (p : B → Bool) (xs : List A)
      → keep p (map f xs) ≡ map f (keep (λ x. p (f x)) xs)
  keep-map f p [] = refl
  keep-map f p (x ∷ xs) = ground (arith, keep-map f p xs)

-- The rows of two-column keys of which the second column is the device.
module _ {A V : Type 0} (key : A → Bytes) (d : Bytes) where
  abbrev pub on_group : A → (Bytes × Bytes) × V → Bool
  on_group a q = bytes_beq q.0.0 (key a)

  abbrev pub of_device : A × ((Bytes × Bytes) × V) → Bool
  of_device p = bytes_beq p.1.0.1 d

  matching_one :
      (a : A) (rows : Map (Bytes × Bytes) V)
      → IsMap rows
      → map (λ p. p.0) (keep of_device (matching on_group a rows))
        ≡ (if contains_key (key a, d) rows then a ∷ [] else [])
  unfolding matching get
  matching_one a [] h = refl
  matching_one a (((g, e), v) ∷ rows) h =
      ground (arith, bytes_beq_iff g (key a), bytes_beq_iff e d, h.0, matching_one a rows h.1)

  -- A join with the rows of one device keeps those of the left table that have such a row.
  pub semi_join :
      (left : List A) (rows : Map (Bytes × Bytes) V)
      → IsMap rows
      → map (λ p. p.0) (keep of_device (inner_join on_group left rows))
        ≡ keep (λ a. contains_key (key a, d) rows) left
  unfolding inner_join
  semi_join [] rows h = refl
  semi_join (a ∷ left) rows h = ground (
    arith,
    keep-append of_device (matching on_group a rows) (inner_join on_group left rows),
    map-append (λ (p : A × ((Bytes × Bytes) × V)). p.0) (keep of_device (matching on_group a rows))
        (keep of_device (inner_join on_group left rows)),
    matching_one a rows h,
    semi_join left rows h,
  )

module _ {V : Type 0} where
  -- The rows of a group, of those whose group passes a test.
  pub select-keep :
      (g : Bytes) (q : Bytes → Bool) (rows : Map (Bytes × Bytes) V)
      → select g (keep (λ p. q p.0.0) rows) ≡ (if q g then select g rows else [])
  unfolding select
  select-keep g q [] = ground arith
  select-keep g q (((i, e), v) ∷ rows) = ground (arith, bytes_beq_iff i g, select-keep g q rows)

  pub contains_key-select :
      (g d : Bytes) (rows : Map (Bytes × Bytes) V)
      → any (λ p. bytes_beq p.0 d) (select g rows) ≡ contains_key (g, d) rows
  unfolding select get
  contains_key-select g d [] = refl
  contains_key-select g d (((i, e), v) ∷ rows) = ground (arith, contains_key-select g d rows)
