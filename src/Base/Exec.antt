-- ===== src/Base/Exec.antt =====
-- error.rs, and methods that mutate `self`, may fail with an `Error` and may panic.
use Prim.Native.String.{String}
use mathlib.Core.Bool.{Bool, true, false}
use mathlib.Core.Option.{Option, none, some}

-- persistence/error.rs; the variants that only wrap an error of a library carry no payload.
pub data PersistenceError : Type 0 where
  var_error pool_build_error execution_error try_from_int_error : PersistenceError
  invalid_argument_error general_error data_inconsistency_error : String → PersistenceError

pub data Error : Type 0 where
  persistence_error : PersistenceError → Error
  general_protocol_error : String → Error
  io_error : Error

-- What a call leaves: a value, an error, or a panic (`assert!`, `unwrap`, `unreachable!`).
pub data Outcome {ℓ} (A : Type ℓ) : Type ℓ where
  ok : A → Outcome A
  err : Error → Outcome A
  panic : Outcome A

-- `?` on a value that does not depend on a state.
abbrev pub and_then {ℓ} : {A B : Type ℓ} → Outcome A → (A → Outcome B) → Outcome B
and_then (ok a) f = f a
and_then (err e) f = err e
and_then panic f = panic

-- `unwrap_or`
abbrev pub value_or {ℓ} : {A : Type ℓ} → A → Outcome A → A
value_or other (ok a) = a
value_or other (err e) = other
value_or other panic = other

-- Writes made before an error or a panic stay, so the state comes back in every case.
abbrev pub Exec {ℓ} : Type ℓ → Type ℓ → Type ℓ
Exec S A = S → Outcome A × S

module _ {ℓ} {S A : Type ℓ} where
  abbrev pub pure : A → Exec S A
  pure a s = (ok a, s)

  abbrev pub raise : Error → Exec S A
  raise e s = (err e, s)

  abbrev pub abort : Exec S A
  abort s = (panic, s)

  -- A call that does not touch the state.
  abbrev pub lift : Outcome A → Exec S A
  lift r s = (r, s)

  abbrev pub gets : (S → A) → Exec S A
  gets f s = (ok (f s), s)

  abbrev pub lift_assert : Bool → Exec S A → Exec S A
  lift_assert true m = m
  lift_assert false m = abort

module _ {ℓ} {S A B : Type ℓ} where
  abbrev pub continue : Outcome A → (A → Exec S B) → Exec S B
  continue (ok a) f s = f a s
  continue (err e) f s = (err e, s)
  continue panic f s = (panic, s)

  infixl 10 ◌>>=◌ ◌>>◌
  abbrev pub ◌>>=◌ : Exec S A → (A → Exec S B) → Exec S B
  ◌>>=◌ m f s = let (r, s') = m s in continue r f s'

  abbrev pub ◌>>◌ : Exec S A → Exec S B → Exec S B
  m >> n = m >>= λ _. n

abbrev pub modify {ℓ} : {S : Type ℓ} → (S → S) → Exec S (Unit {ℓ})
modify f s = (ok tt, f s)

-- A field of the state as a state of its own: a method of a component.
abbrev pub zoom {ℓ} : {S T A : Type ℓ} → (S → T) → (T → S → S) → Exec T A → Exec S A
zoom get put m s = let (r, t) = m (get s) in (r, put t s)

-- `?` on an `Option` turned into an error, and `unwrap`.
abbrev pub or_raise {ℓ} : {A : Type ℓ} → Error → Option A → Outcome A
or_raise e none = err e
or_raise e (some a) = ok a

abbrev pub unwrap {ℓ} : {A : Type ℓ} → Option A → Outcome A
unwrap none = panic
unwrap (some a) = ok a

pub Outcome-cases {ℓ} :
    {A : Type ℓ} (P : Outcome A → Type ℓ)
    → ((a : A) → P (ok a))
    → ((e : Error) → P (err e))
    → P panic
    → (r : Outcome A) → P r
Outcome-cases P a e p (ok x) = a x
Outcome-cases P a e p (err x) = e x
Outcome-cases P a e p panic = p
