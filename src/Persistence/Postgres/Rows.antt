-- ===== src/Persistence/Postgres/Rows.antt =====
-- Lookups and keys of the tables after the statements of persistence/postgres_repository.
use mathlib.Core.Option.{none}
use mathlib.Core.Option
use meesign_server.Base.{keep, Bool, ◌≡◌, refl, [], ◌∷◌, map, arith, Eq, pair_eq, if◌then◌else◌}
use meesign_server.Base.Map.{Map, get, IsMap}
use meesign_server.Persistence.Postgres.{update_row, select}

module _ {K V : Type 0} ⦃e : Eq K⦄ where
  pub get-update_row :
      (k j : K) (f : V → V) (m : Map K V)
      → get j (update_row k f m) ≡ (if e.beq k j then Option.map f (get j m) else get j m)
  unfolding get update_row
  get-update_row k j f [] = ground arith
  get-update_row k j f ((i, v) ∷ m) =
      ground (arith, e.beq_iff i k, e.beq_iff i j, e.beq_iff k j, get-update_row k j f m)

  pub update_row-IsMap : (k : K) (f : V → V) (m : Map K V) → IsMap m → IsMap (update_row k f m)
  unfolding update_row
  update_row-IsMap k f [] h = tt
  update_row-IsMap k f ((i, v) ∷ m) h =
      ground (arith, get-update_row k i f m, update_row-IsMap k f m h.1)

  -- The rows with the columns that a query computes of each.
  pub get-map_values :
      {W : Type 0} (f : V → W) (k : K) (m : Map K V)
      → get k (map (λ p. (p.0, f p.1)) m) ≡ Option.map f (get k m)
  unfolding get
  get-map_values f k [] = refl
  get-map_values f k ((j, v) ∷ m) = ground (arith, get-map_values f k m)

  pub map_values-IsMap :
      {W : Type 0} (f : V → W) (m : Map K V) → IsMap m → IsMap (map (λ p. (p.0, f p.1)) m)
  map_values-IsMap f [] h = tt
  map_values-IsMap f ((k, v) ∷ m) h = ground (arith, get-map_values f k m, map_values-IsMap f m h.1)

  pub get-keep_absent :
      (q : K × V → Bool) (k : K) (m : Map K V) → get k m ≡ none → get k (keep q m) ≡ none
  unfolding get
  get-keep_absent q k [] h = refl
  get-keep_absent q k ((j, v) ∷ m) h = ground (arith, get-keep_absent q k m)

  pub keep-IsMap : (q : K × V → Bool) (m : Map K V) → IsMap m → IsMap (keep q m)
  keep-IsMap q [] h = tt
  keep-IsMap q ((k, v) ∷ m) h = ground (arith, get-keep_absent q k m h.0, keep-IsMap q m h.1)

module _ {J K V : Type 0} ⦃a : Eq J⦄ ⦃b : Eq K⦄ where
  pub get-select : (j : J) (k : K) (m : Map (J × K) V) → get k (select j m) ≡ get (j, k) m
  unfolding get select
  get-select j k [] = refl
  get-select j k (((i, l), v) ∷ m) = ground (arith, a.beq_iff i j, b.beq_iff l k, get-select j k m)

  pub select-IsMap : (j : J) (m : Map (J × K) V) → IsMap m → IsMap (select j m)
  unfolding select
  select-IsMap j [] h = tt
  select-IsMap j (((i, l), v) ∷ m) h =
      ground (arith, a.beq_iff i j, get-select j l m, select-IsMap j m h.1)
