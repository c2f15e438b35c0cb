-- ===== src/Prelude/Dict.antt =====
-- A Go map with string keys, as an association list with at most one entry for a key.
use Prim.Native.String.{String}
use mathlib.Core.Path.{◌≡◌, refl}
use mathlib.Core.Option.{Option, none, some}
use text.Mathlib.TextEquality.{eq_iff}
use text.Mathlib.Text.{◌==◌}
use native.Mathlib.Omega.{arith}
use mathlib.Core.List.{List, [], ◌∷◌}
use go_dbw.Prelude.Tests.{if◌then◌else◌}

abbrev pub Dict {ℓ} : Type ℓ → Type ℓ
Dict V = List (String × V)

module _ {ℓ} {V : Type ℓ} where
  -- `m[q]`
  unfoldable pub lookup : String → Dict V → Option V
  lookup q [] = none
  lookup q ((key, value) ∷ rest) = if key == q then some value else lookup q rest

  -- `m[q] = value`
  unfoldable pub insert : String → V → Dict V → Dict V
  insert q value [] = (q, value) ∷ []
  insert q value ((key, old) ∷ rest) =
      if key == q then (q, value) ∷ rest else (key, old) ∷ insert q value rest

  -- The keys, as a `range` over the map delivers them in some order.
  unfoldable pub keys : Dict V → List String
  keys [] = []
  keys ((k, _) ∷ m) = k ∷ keys m

  -- No key has two entries.
  abbrev pub NodupKeys : Dict V → Type ℓ
  NodupKeys [] = Unit
  NodupKeys ((k, _) ∷ m) = (lookup k m ≡ none) × NodupKeys m

  -- Only the entry of the key that is set changes.
  pub lookup-insert :
      (q p : String) (value : V) (entries : Dict V)
      → lookup p (insert q value entries) ≡ (if q == p then some value else lookup p entries)
  unfolding lookup insert
  lookup-insert q p value ((key, old) ∷ rest) =
      ground (arith, lookup-insert q p value rest, eq_iff key p, eq_iff key q, eq_iff q p)
  lookup-insert q p value [] = refl

  pub insert-NodupKeys : (k : String) (v : V) (m : Dict V) → NodupKeys m → NodupKeys (insert k v m)
  unfolding lookup insert
  insert-NodupKeys k v [] u = (refl, tt)
  insert-NodupKeys k v ((j, w) ∷ m) u =
      ground (arith, eq_iff j k, eq_iff k j, lookup-insert k j v m, insert-NodupKeys k v m u.1)
