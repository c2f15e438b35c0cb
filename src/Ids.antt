-- ===== src/Ids.antt =====
-- id.go: `NewId`.
use go_dbw.Prelude.{
  ◌≡◌, refl, sym, Bool-cases, inl, inr, String, ◌==◌, ◌<>◌, ℕ, false, not, Option, none, some, List,
  [], join, is_empty, if◌then◌else◌,
}
use go_dbw.Errors.{Outcome, ok, err, errorf, sentinel, internal}
use go_dbw.Guards.{bad_parameter}
use go_dbw.Options.{Setter, get_opts}

-- The hash of golang.org/x/crypto, and the random strings of go-secure-stdlib's base62; `none` is an error.
pub record Randoms (W : Type 0) : Type 0 where
  pub sum256 : String → List ℕ
  pub random_with_reader : ℕ → List ℕ → Option String
  pub random : ℕ → W → Option String × W

module _ {W : Type 0} (N : Randoms W) where
  abbrev identifier : String → Option String → Outcome String
  identifier prefix none = err (errorf "dbw.NewId: unable to generate id" [] (sentinel internal))
  identifier prefix (some public_id) = ok (prefix <> "_" <> public_id)

  unfoldable pub new_id : String → List (Option (Setter W)) → W → Outcome String × W
  new_id prefix opt w =
      let values : List String = (get_opts opt).with_prng_values in
      if prefix == ""
      then (err (bad_parameter "dbw.NewId: missing prefix"), w)
      else if not (is_empty values)
      then (identifier prefix (N.random_with_reader 10 (N.sum256 (join values "|"))), w)
      else (let (public_id, w) = N.random 10 w in (identifier prefix public_id, w))

  -- With PRNG values `NewId` draws nothing from the world: its outcome is the same in every world, and
  -- for options with the same values.
  new_id-reproducible :
      (prefix : String) (opt opt' : List (Option (Setter W))) (w w' : W)
      → is_empty (get_opts opt).with_prng_values ≡ false
      → (get_opts opt).with_prng_values ≡ (get_opts opt').with_prng_values
      → ((new_id prefix opt w).0 ≡ (new_id prefix opt' w').0) × ((new_id prefix opt w).1 ≡ w)
  unfolding new_id
  new_id-reproducible prefix opt opt' w w' some_values same = elim (Bool-cases (prefix == "")) [
    | inl eq ↦ rw (eq) (refl, refl)
    | inr eq ↦ rw (eq, sym same, some_values) (refl, refl)
  ]
