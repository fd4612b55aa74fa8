-- ===== src/Prelude/Maps.antt =====
-- Go's maps as association lists over keys with an equality test. The order of the entries stands
-- for the order of an iteration, which Go leaves open.
use mathlib.Core.Path.{◌≡◌, refl}
use mathlib.Core.List.{List, [], ◌∷◌}
use mathlib.Core.Option.{Option, none, some}
use native.Mathlib.Omega.{arith}
use percona_link_mongodb.Prelude.Tests.{if◌then◌else◌}
use percona_link_mongodb.Prelude.Keys.{Eq, ◌==◌}

abbrev pub Assoc {ℓ κ} : Type ℓ → Type κ → Type (ℓ ⊔ κ)
Assoc K V = List (K × V)

module _ {ℓ κ} {K : Type ℓ} {V : Type κ} ⦃keys : Eq K⦄ where
  -- v, ok := m[key]
  unfoldable pub lookup : K → Assoc K V → Option V
  lookup key [] = none
  lookup key ((other, v) ∷ rest) = if other == key then some v else lookup key rest

  -- m[key] = v
  unfoldable pub insert : K → V → Assoc K V → Assoc K V
  insert key v [] = (key, v) ∷ []
  insert key v ((other, w) ∷ rest) =
      let tail = insert key v rest in if other == key then (other, v) ∷ rest else (other, w) ∷ tail

  -- delete(m, key)
  unfoldable pub remove : K → Assoc K V → Assoc K V
  remove key [] = []
  remove key ((other, w) ∷ rest) =
      let tail = remove key rest in if other == key then tail else (other, w) ∷ tail

  pub lookup-insert :
      (key asked : K) (v : V) (m : Assoc K V)
      → lookup asked (insert key v m) ≡ (if key == asked then some v else lookup asked m)
  unfolding lookup insert
  lookup-insert key asked v [] = refl
  lookup-insert key asked v ((other, w) ∷ m) = ground (
    arith,
    lookup-insert key asked v m,
    keys.eqb_iff other key,
    keys.eqb_iff other asked,
    keys.eqb_iff key asked,
  )

  pub lookup-remove :
      (key asked : K) (m : Assoc K V)
      → lookup asked (remove key m) ≡ (if key == asked then none else lookup asked m)
  unfolding lookup remove
  lookup-remove key asked [] = ground arith
  lookup-remove key asked ((other, w) ∷ m) = ground (
    arith,
    lookup-remove key asked m,
    keys.eqb_iff other key,
    keys.eqb_iff other asked,
    keys.eqb_iff key asked,
  )

pub ruleset map_laws = (lookup-insert, lookup-remove)
