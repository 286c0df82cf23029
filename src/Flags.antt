-- ===== src/Flags.antt =====
-- The flags of the commands in dcp-control-plane/cmd and dcp-provider/cmd. How Cobra reads a command
-- line is the parameter `Cli`.
use provider_engine.Base.{
  Text, bytes, ◌==◌, ℤ, List, [], ◌∷◌, ◌++◌, Option, none, some, ◌≡◌, ap, if◌then◌else◌,
}
use provider_engine.Errors.{Error, driver}

pub record Cli : Type 0 where
  -- the text that a flag was given on the command line
  pub given : Text → Option Text
  -- the number that a flag was given
  pub given_int : Text → Option ℤ
  -- os.Getenv, empty if the variable is not set
  pub getenv : Text → Text

abbrev pub or_else {ℓ} : {A : Type ℓ} → A → Option A → A
or_else x none = x
or_else x (some y) = y

abbrev or_fallback : Text → Text → Text
or_fallback fallback v = if v == [] then fallback else v

module _ (cli : Cli) where
  -- envOr
  abbrev pub env_or : Text → Text → Text
  env_or key fallback = or_fallback fallback (cli.getenv key)

  -- StringVar and IntVar
  abbrev pub string_flag : Text → Text → Text
  string_flag name default = or_else default (cli.given name)

  abbrev pub int_flag : Text → ℤ → ℤ
  int_flag name default = or_else default (cli.given_int name)

-- MarkFlagRequired: Cobra's error for required flags that the command line does not give
abbrev quoted_names : List Text → Text
quoted_names [] = []
quoted_names (n ∷ []) = bytes "\"" ++ (n ++ bytes "\"")
quoted_names (n ∷ m ∷ ns) = bytes "\"" ++ (n ++ (bytes "\", " ++ quoted_names (m ∷ ns)))

abbrev note_missing : Option Text → Text → List Text → List Text
note_missing none n ns = n ∷ ns
note_missing (some t) n ns = ns

abbrev missing : Cli → List Text → List Text
missing cli [] = []
missing cli (n ∷ ns) = note_missing (cli.given n) n (missing cli ns)

abbrev refuse : List Text → Option Error
refuse [] = none
refuse (n ∷ ns) =
    some (driver (bytes "required flag(s) " ++ (quoted_names (n ∷ ns) ++ bytes " not set")))

abbrev pub required : Cli → List Text → Option Error
required cli names = refuse (missing cli names)

module _ (cli : Cli) (name : Text) where
  pub required-none :
      cli.given name ≡ none
      → required cli (name ∷ [])
        ≡ some (driver (bytes "required flag(s) \"" ++ ((name ++ bytes "\"") ++ bytes " not set")))
  required-none e = ap (λ o. refuse (note_missing o name [])) e

  pub required-some : (t : Text) → cli.given name ≡ some t → required cli (name ∷ []) ≡ none
  required-some t e = ap (λ o. refuse (note_missing o name [])) e
