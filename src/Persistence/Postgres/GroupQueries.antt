-- ===== src/Persistence/Postgres/GroupQueries.antt =====
-- The queries of persistence/postgres_repository/group.rs against one another.
use mathlib.Core.List.{append-nil, append_assoc, Permᴰ}
use meesign_server.Base.{
  is_some, Option, none, some, ap, ◌≡◌, refl, sym, ◌∙◌, Bool, true, List, [], ◌∷◌, ◌++◌, map, Bytes,
  arith, bytes_eq, pair_eq, bytes_beq, bytes_beq_iff, any, keep, find, ℕ,
}
use meesign_server.Base.Exec.{ok}
use meesign_server.Base.Map.{Map, get, insert, remove, contains_key, IsMap, get-insert, get-remove}
use meesign_server.Base.Reorder.{get-Perm, Perm-map, Perm-keep}
use meesign_server.Persistence.Models.{Group}
use meesign_server.Persistence.Postgres.{Database, GroupRow, select}
use meesign_server.Persistence.Postgres.Consistent.{IsConsistent}
use meesign_server.Persistence.Postgres.Groups.{
  by_group, or_default, with_participants, group_of_row, get_groups, get_group, get_device_groups,
  group_with, device_group_rows, device_groups, GroupShares,
}
use meesign_server.Persistence.Postgres.Joins.{semi_join, select-keep, contains_key-select}
use meesign_server.Persistence.Postgres.Reordered.{Reordered, Reordered-IsConsistent}
use meesign_server.Persistence.Postgres.Reordered.Reads.{select-Perm}
use meesign_server.Persistence.Postgres.Rows.{keep-IsMap}

-- The participants of a group in the order of the rows.
by_group_lem :
    (g : Bytes) (rows : List GroupShares) (m : Map Bytes (List (Bytes × ℕ)))
    → or_default (get g (by_group rows m)) ≡ or_default (get g m) ++ select g rows
unfolding by_group select or_default
by_group_lem g [] m = sym (append-nil (or_default (get g m)))
by_group_lem g (((i, d), n) ∷ rows) m = ground (
  arith,
  by_group_lem g rows (insert i (or_default (get i m) ++ ((d, n) ∷ [])) m),
  get-insert i g (or_default (get i m) ++ ((d, n) ∷ [])) m,
  bytes_beq_iff i g,
  append_assoc (or_default (get g m)) ((d, n) ∷ []) (select g rows),
)

with_participants_lem :
    (rows : List (Bytes × GroupRow)) (m : Map Bytes (List (Bytes × ℕ)))
    (f : Bytes → List (Bytes × ℕ))
    → IsMap rows
    → ((g : Bytes) → contains_key g rows ≡ true → or_default (get g m) ≡ f g)
    → with_participants rows m ≡ map (λ p. group_of_row p.0 p.1 (f p.0)) rows
unfolding with_participants get
with_participants_lem [] m f h same = refl
with_participants_lem ((id, row) ∷ rows) m f h same = ground (
  arith,
  same id,
  bytes_beq_iff id id,
  with_participants_lem rows (remove id m) f h.1
      (λ g there. ground (arith, same g, get-remove id g m, bytes_beq_iff id g, h.0)),
)

-- The groups with their participants.
abbrev pub joined : Database → List (Bytes × GroupRow) → List Group
joined db rows = map (λ p. group_of_row p.0 p.1 (select p.0 db.group_participant)) rows

gathered :
    (g : Bytes) (rows : List GroupShares) → or_default (get g (by_group rows [])) ≡ select g rows
unfolding or_default get
gathered g rows = by_group_lem g rows []

get_groups_lem : (db : Database) → IsConsistent db → get_groups db ≡ (ok (joined db db.groups), db)
unfolding get_groups
get_groups_lem db c =
    ap (λ x. (ok x, db))
      (with_participants_lem db.groups (by_group db.group_participant [])
        (λ g. select g db.group_participant) c.group_keys
        (λ g there. gathered g db.group_participant))

key_kept :
    {V : Type 0} (q : Bytes → Bool) (g : Bytes) (m : Map Bytes V)
    → contains_key g (keep (λ p. q p.0) m) ≡ true
    → q g ≡ true
unfolding get
key_kept q g [] h = cc
key_kept q g ((k, v) ∷ m) h = ground (arith, bytes_beq_iff k g, key_kept q g m)

module _ (d : Bytes) (db : Database) (c : IsConsistent db) where
  abbrev takes_part : Bytes → Bool
  takes_part g = contains_key (g, d) db.group_participant

  device_groups_lem : device_groups d db ≡ keep (λ p. takes_part p.0) db.groups
  unfolding device_groups
  device_groups_lem = semi_join (λ p. p.0) d db.groups db.group_participant c.group_participant_keys

  device_group_rows_lem :
      device_group_rows d db.group_participant ≡ keep (λ p. takes_part p.0.0) db.group_participant
  unfolding device_group_rows
  device_group_rows_lem =
      semi_join (λ p. p.0.0) d db.group_participant db.group_participant c.group_participant_keys

  get_device_groups_lem :
      get_device_groups d db ≡ (ok (joined db (keep (λ p. takes_part p.0) db.groups)), db)
  unfolding get_device_groups
  get_device_groups_lem =
      rw (device_groups_lem, device_group_rows_lem)
        (ap (λ x. (ok x, db))
          (with_participants_lem (keep (λ p. takes_part p.0) db.groups)
            (by_group (keep (λ p. takes_part p.0.0) db.group_participant) [])
            (λ g. select g db.group_participant)
            (keep-IsMap (λ p. takes_part p.0) db.groups c.group_keys)
            (λ g there.
              gathered g (keep (λ p. takes_part p.0.0) db.group_participant)
              ∙ select-keep g takes_part db.group_participant
              ∙ rw (key_kept takes_part g db.groups there) refl)))

  listed_lem :
      (rows : List (Bytes × GroupRow))
      → keep (λ (x : Group). any (λ p. bytes_beq p.0 d) x.participant_ids_shares) (joined db rows)
        ≡ joined db (keep (λ p. takes_part p.0) rows)
  unfolding group_of_row
  listed_lem [] = refl
  listed_lem ((id, row) ∷ rows) =
      ground (arith, contains_key-select id d db.group_participant, listed_lem rows)

find_lem :
    (db : Database) (g : Bytes) (rows : Map Bytes GroupRow)
    → group_with g (select g db.group_participant) (get g rows)
      ≡ find (λ x. bytes_beq x.id g) (joined db rows)
unfolding group_with group_of_row get
find_lem db g [] = refl
find_lem db g ((id, row) ∷ rows) = ground (arith, bytes_beq_iff id g, find_lem db g rows)

-- The same group, with its participants in another order.
abbrev pub SameGroup : Group → Group → Type 0
SameGroup a b =
    Permᴰ a.participant_ids_shares b.participant_ids_shares
    × (b ≡ record a { participant_ids_shares = b.participant_ids_shares })

abbrev pub SameFound : Option Group → Option Group → Type 0
SameFound none none = Unit
SameFound (some a) (some b) = SameGroup a b
SameFound none (some b) = ⊥
SameFound (some a) none = ⊥

abbrev pub SameGroups : List Group → List Group → Type 0
SameGroups [] [] = Unit
SameGroups (a ∷ gs) (b ∷ bs) = SameGroup a b × SameGroups gs bs
SameGroups [] (b ∷ bs) = ⊥
SameGroups (a ∷ gs) [] = ⊥

keep_congr :
    {A : Type 0} (p q : A → Bool) → ((a : A) → p a ≡ q a) → (xs : List A) → keep p xs ≡ keep q xs
keep_congr p q same [] = refl
keep_congr p q same (x ∷ xs) = ground (arith, same x, keep_congr p q same xs)

module _ (db d : Database) (again : Reordered db d) where
  same_joined : (rows : List (Bytes × GroupRow)) → SameGroups (joined db rows) (joined d rows)
  unfolding group_of_row
  same_joined [] = tt
  same_joined ((id, row) ∷ rows) =
      ((select-Perm id again.group_participant, refl), same_joined rows)

  same_found :
      (g : Bytes) (o : Option GroupRow)
      → SameFound
          (group_with g (select g db.group_participant) o)
          (group_with g (select g d.group_participant) o)
  unfolding group_with group_of_row
  same_found g none = tt
  same_found g (some row) = (select-Perm g again.group_participant, refl)

  -- The groups of a device are those of all groups that list it.
  listed_again :
      (e : Bytes) (c : IsConsistent db)
      → Permᴰ
          (keep
            (λ (x : Group). any (λ p. bytes_beq p.0 e) x.participant_ids_shares)
            (joined db db.groups))
          (joined db
            (keep (λ (p : Bytes × GroupRow). contains_key (p.0, e) d.group_participant) d.groups))
  listed_again e c =
      rw
        (
          listed_lem e db c db.groups,
          keep_congr (λ (p : Bytes × GroupRow). contains_key (p.0, e) d.group_participant)
              (λ p. contains_key (p.0, e) db.group_participant)
              (λ p.
                ap is_some ((get-Perm again.group_participant c.group_participant_keys).1 (p.0, e)))
              d.groups,
        )
        (Perm-map _ (Perm-keep _ again.groups))

  read_group :
      (g : Bytes)
      → IsConsistent db
      → (one : Option Group) × (get_group g d ≡ (ok one, d))
        × SameFound (find (λ (x : Group). bytes_beq x.id g) (joined db db.groups)) one
  unfolding get_group
  read_group g c = (
    group_with g (select g d.group_participant) (get g d.groups),
    refl,
    rw ((get-Perm again.groups c.group_keys).1 g, sym (find_lem db g db.groups))
        (same_found g (get g db.groups)),
  )

  read_device_groups :
      (e : Bytes)
      → IsConsistent db
      → (own listed : List Group) × (get_device_groups e d ≡ (ok own, d))
        × Permᴰ
            (keep
              (λ (x : Group). any (λ p. bytes_beq p.0 e) x.participant_ids_shares)
              (joined db db.groups))
            listed
        × SameGroups listed own
  read_device_groups e c =
      let c' = Reordered-IsConsistent again c in
      let rows =
        keep (λ (p : Bytes × GroupRow). contains_key (p.0, e) d.group_participant) d.groups in
      (
        joined d rows,
        joined db rows,
        get_device_groups_lem e d c',
        listed_again e c,
        same_joined rows,
      )

-- On the tables of a consistent database the three queries for groups, which join and group rows
-- each in its own way, agree, in whatever order each of them finds the rows: the group of an
-- identifier is the one among all groups that has the identifier, and none where there is none,
-- and the groups of a device are, in some order, those of all groups that list the device; a
-- group has the same columns in each answer, and the same participants with their shares in some
-- order.
pub groups_agree :
    (db d1 d2 : Database) (e g : Bytes)
    → IsConsistent db
    → Reordered db d1
    → Reordered db d2
    → (all own listed : List Group) × (one : Option Group) × (get_groups db ≡ (ok all, db))
      × (get_group g d1 ≡ (ok one, d1))
      × SameFound (find (λ (x : Group). bytes_beq x.id g) all) one
      × (get_device_groups e d2 ≡ (ok own, d2))
      × Permᴰ (keep (λ (x : Group). any (λ p. bytes_beq p.0 e) x.participant_ids_shares) all) listed
      × SameGroups listed own
groups_agree db d1 d2 e g c again1 again2 =
    let (one, read, found) = read_group db d1 again1 g c in
    let (own, listed, device_read, permuted, same) = read_device_groups db d2 again2 e c in
    (
      joined db db.groups,
      own,
      listed,
      one,
      get_groups_lem db c,
      read,
      found,
      device_read,
      permuted,
      same,
    )
