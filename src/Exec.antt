-- ===== src/Exec.antt =====
-- Go functions that return a value or an error and change a state: `Exec S A` gives the result, and
-- the state that the function leaves, also where it fails.
pub mod Rules
use mathlib.Core.Path.{◌≡◌, refl}
use percona_link_mongodb.Prelude.{
  String, Bool, true, false, Option, none, some, if◌then◌else◌, ◌==◌, string_eq,
}
use percona_link_mongodb.Errors.{Error, wrapped}

pub data Result {ℓ} (A : Type ℓ) : Type ℓ where
  ok : A → Result A
  fail : Error → Result A

-- The result of a Go function that returns an error alone.
pub data NoValue : Type 0 where
  no_value : NoValue

abbrev pub Exec {ℓ} : Type ℓ → Type ℓ → Type ℓ
Exec S A = S → Result A × S

-- errors.Wrap on an error that is not nil
abbrev pub wrapping : String → Error → Error
wrapping text e = if text == "" then e else wrapped e text

abbrev pub map_fail {ℓ} : {A : Type ℓ} → (Error → Error) → Result A → Result A
map_fail f (ok a) = ok a
map_fail f (fail e) = fail (f e)

-- An error that is no error where the test holds: the value then is `a`.
unfoldable pub ok_if {ℓ} : {A : Type ℓ} → Bool → A → Error → Result A
ok_if true a e = ok a
ok_if false a e = fail e

abbrev pub result_of : Option Error → Result NoValue
result_of none = ok no_value
result_of (some e) = fail e

module _ {ℓ} {S A : Type ℓ} where
  unfoldable pub pure : A → Exec S A
  pure a s = (ok a, s)

  unfoldable pub raise : Error → Exec S A
  raise e s = (fail e, s)

  unfoldable pub gets : (S → A) → Exec S A
  gets f s = (ok (f s), s)

  -- `if err != nil { return ..., f(err) }`
  unfoldable pub on_fail : (Error → Error) → Exec S A → Exec S A
  on_fail f m s = let (r, s') = m s in (map_fail f r, s')

  abbrev pub context : String → Exec S A → Exec S A
  context text m = on_fail (wrapping text) m

module _ {ℓ} {S A B : Type ℓ} where
  abbrev pub continue : Result A → (A → Exec S B) → Exec S B
  continue (ok a) f s = f a s
  continue (fail e) f s = (fail e, s)

  infixl 10 ◌>>=◌ ◌>>◌
  unfoldable pub ◌>>=◌ : Exec S A → (A → Exec S B) → Exec S B
  ◌>>=◌ m f s = let (r, s') = m s in continue r f s'

  abbrev pub ◌>>◌ : Exec S A → Exec S B → Exec S B
  m >> n = m >>= λ _. n

module _ {S : Type 0} where
  unfoldable pub modify : (S → S) → Exec S NoValue
  modify f s = (ok no_value, f s)

  unfoldable pub skip : Exec S NoValue
  skip s = (ok no_value, s)

  -- An error that is only logged.
  unfoldable pub ignoring : {A : Type 0} → Exec S A → Exec S NoValue
  ignoring m s = let (_, s') = m s in (ok no_value, s')
