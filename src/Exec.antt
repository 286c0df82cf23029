-- ===== src/Exec.antt =====
-- A method of the control plane: it changes a state and returns a value or an error. What was
-- written before an error stays written, so the state comes back beside the error too.
pub mod Fixed
use provider_engine.Base.{Text}
use provider_engine.Errors.{Error, wrap}

pub data Result {ℓ} (A : Type ℓ) : Type ℓ where
  ok : A → Result A
  err : Error → Result A

abbrev pub Exec {ℓ} : Type ℓ → Type ℓ → Type ℓ
Exec S A = S → Result A × S

module _ {ℓ} {S A : Type ℓ} where
  abbrev pub pure : A → Exec S A
  pure a s = (ok a, s)

  abbrev pub raise : Error → Exec S A
  raise e s = (err e, s)

  abbrev pub rewrap : (Error → Error) → Result A × S → Result A × S
  rewrap f (ok a, s) = (ok a, s)
  rewrap f (err e, s) = (err (f e), s)

  abbrev pub map_error : (Error → Error) → Exec S A → Exec S A
  map_error f m s = rewrap f (m s)

  -- `if err != nil { return nil, fmt.Errorf("<text>: %w", err) }`
  abbrev pub wrapping : Text → Exec S A → Exec S A
  wrapping text = map_error (wrap text)

module _ {ℓ} {S A B : Type ℓ} where
  abbrev pub continue : (A → Exec S B) → Result A × S → Result B × S
  continue f (ok a, s) = f a s
  continue f (err e, s) = (err e, s)

  infixl 10 ◌>>=◌ ◌>>◌
  -- `if err != nil { return nil, err }` between two statements
  abbrev pub ◌>>=◌ : Exec S A → (A → Exec S B) → Exec S B
  ◌>>=◌ m f s = continue f (m s)

  abbrev pub ◌>>◌ : Exec S A → Exec S B → Exec S B
  m >> n = m >>= λ _. n
