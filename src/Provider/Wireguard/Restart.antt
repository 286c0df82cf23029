-- ===== src/Provider/Wireguard/Restart.antt =====
-- dcp-provider/internal/wireguard/wg.go: the keys of a provider at a second start.
use provider_engine.Base.{
  ℕ, Text, bytes, ◌==◌, List, [], ◌∷◌, ◌++◌, Option, none, some, ◌≡◌, ◌≢◌, refl, sym, ◌∙◌, ap,
  if◌then◌else◌,
}
use mathlib.Core.Bool.{true≢false}
use mathlib.Core.Path.{subst}
use provider_engine.Exec.{Result, ok, err, pure, continue, wrapping, ◌>>=◌, ◌>>◌}
use provider_engine.Strings.{trim_space}
use provider_engine.Strings.Trim.{trim_space-stored}
use provider_engine.Machine.{
  Machine, Os, argv, written, answered, write_file, mkdir_all, read_file, read_or_empty,
  run_output_stdin,
}
use provider_engine.Machine.Keeps.{update-other}
use provider_engine.Machine.Provides.{update-same}
use provider_engine.Provider.Wireguard.{
  Keygen, is_termux, base_paths, paths, dir_of, clamp, new_keypair, reuse_or_make, generate_keypair,
}

rest_of : Text → Text
rest_of [] = []
rest_of (c ∷ s) = s

append_cancel : (s t u : Text) → s ++ t ≡ s ++ u → t ≡ u
unfolding rest_of
append_cancel [] t u e = e
append_cancel (c ∷ s) t u e = append_cancel s t u (ap rest_of e)

base_paths-apart : (base : Text) → (base_paths base).private_key ≢ (base_paths base).public_key
unfolding ◌==◌
base_paths-apart base e =
    let names : bytes "/prov_private" ≡ bytes "/prov_public" = append_cancel base _ _ e in
    true≢false (sym (ap (λ s. s == bytes "/prov_public") names))

key_paths-apart : (os : Os) → (paths os).private_key ≢ (paths os).public_key
unfolding paths
key_paths-apart os = base_paths-apart (
    if is_termux os
    then os.env (bytes "HOME") ++ bytes "/.dcp/wireguard"
    else bytes "/etc/wireguard")

module _ (os : Os) where
  -- Both keys are in their files, each as a line that is read back as the key.
  IsStored : Result (Text × Text) × Machine → Type 0
  IsStored (err e, m) = Unit {0}
  IsStored (ok (priv_key, pub_key), m) =
      (m.file (paths os).private_key ≡ some (priv_key ++ 10 ∷ []))
      × (m.file (paths os).public_key ≡ some (pub_key ++ 10 ∷ []))
      × (trim_space (priv_key ++ 10 ∷ []) ≡ priv_key)
      × (trim_space (pub_key ++ 10 ∷ []) ≡ pub_key)

  module _ (priv_key pub_key : Text) (priv_line : trim_space (priv_key ++ 10 ∷ []) ≡ priv_key)
      (pub_line : trim_space (pub_key ++ 10 ∷ []) ≡ pub_key) where
    second_write :
        (e left : Option Text) (m : Machine)
        → m.file (paths os).private_key ≡ some (priv_key ++ 10 ∷ [])
        → IsStored (
            continue
              (λ _. pure (priv_key, pub_key))
              (written e (paths os).public_key (pub_key ++ 10 ∷ []) left m))
    unfolding IsStored
    second_write (some e) left m h = tt
    second_write none left m h = (
      update-other _ _ _ m.file (λ e. key_paths-apart os (sym e)) ∙ h,
      update-same _ _ m.file,
      priv_line,
      pub_line,
    )

    first_write :
        (e left : Option Text) (m : Machine)
        → IsStored (
            continue
              (λ _.
                write_file os (paths os).public_key (pub_key ++ 10 ∷ [])
                >> pure (priv_key, pub_key))
              (written e (paths os).private_key (priv_key ++ 10 ∷ []) left m))
    unfolding IsStored write_file
    first_write (some e) left m = tt
    first_write none left m =
        let m' = (written none (paths os).private_key (priv_key ++ 10 ∷ []) left m).1 in
        second_write (os.write_error (paths os).public_key (pub_key ++ 10 ∷ []) m')
          (os.leftover (paths os).public_key (pub_key ++ 10 ∷ []) m') m'
          (update-same (paths os).private_key (some (priv_key ++ 10 ∷ [])) m.file)

  module _ (gen : Keygen)
      (printable : (key : List ℕ) → trim_space (gen.encode key) ≡ gen.encode key) where
    encoded_line : (key : List ℕ) → trim_space (gen.encode key ++ 10 ∷ []) ≡ gen.encode key
    encoded_line key =
        ap (λ s. trim_space (s ++ 10 ∷ [])) (sym (printable key))
        ∙ trim_space-stored (gen.encode key)
        ∙ printable key

    derived-IsStored :
        (key : List ℕ) (failure : Option Text) (stdout : Text) (m : Machine)
        → IsStored (
            continue
              (λ out.
                write_file os (paths os).private_key (gen.encode key ++ 10 ∷ [])
                >> (write_file os (paths os).public_key (trim_space out ++ 10 ∷ [])
                    >> pure (gen.encode key, trim_space out)))
              (wrapping (bytes "wg pubkey") (λ s. (answered failure stdout, s)) m))
    unfolding IsStored write_file
    derived-IsStored key (some e) stdout m = tt
    derived-IsStored key none stdout m =
        first_write (gen.encode key) (trim_space stdout) (encoded_line key)
          (trim_space-stored stdout)
          (os.write_error (paths os).private_key (gen.encode key ++ 10 ∷ []) m)
          (os.leftover (paths os).private_key (gen.encode key ++ 10 ∷ []) m) m

    random-IsStored :
        (r : Result (List ℕ)) (m : Machine)
        → IsStored (
            (do
              key ← λ n. (r, n)
              let private_key = gen.encode (clamp key)
              out ←
                  wrapping
                    (bytes "wg pubkey")
                    (run_output_stdin os (private_key ++ 10 ∷ []) (argv "wg pubkey"))
              let public_key = trim_space out
              write_file os (paths os).private_key (private_key ++ 10 ∷ [])
              write_file os (paths os).public_key (public_key ++ 10 ∷ [])
              pure (private_key, public_key))
              m)
    unfolding IsStored run_output_stdin
    random-IsStored (err e) m = tt
    random-IsStored (ok key) m = derived-IsStored (clamp key) _ _ _

    new_keypair-IsStored : (m : Machine) → IsStored (new_keypair os gen m)
    unfolding new_keypair
    new_keypair-IsStored m = random-IsStored (gen.random m) m

-- On this machine the directory of the keys can be made and both key files can be read.
abbrev pub IsReadable : Os → Machine → Type 0
IsReadable os m =
    (os.mkdir_error (dir_of (paths os).config) m ≡ none)
    × (os.read_error (paths os).private_key m ≡ none)
    × (os.read_error (paths os).public_key m ≡ none)

module _ (os : Os) (gen : Keygen) where
  generate_keypair-opened :
      (m : Machine)
      → os.mkdir_error (dir_of (paths os).config) m ≡ none
      → generate_keypair os gen m ≡ reuse_or_make os gen (read_file os (paths os).public_key m).0 m
  unfolding generate_keypair mkdir_all read_file
  generate_keypair-opened m h = rw h refl

  -- a second call gives what the first has given
  IsSettled : Result (Text × Text) × Machine → Type 0
  IsSettled (err e, m) = Unit {0}
  IsSettled (ok keys, m) = IsReadable os m → generate_keypair os gen m ≡ (ok keys, m)

  stored-IsSettled : (r : Result (Text × Text) × Machine) → IsStored os r → IsSettled r
  unfolding IsStored IsSettled read_file read_or_empty
  stored-IsSettled (err e, m) h = tt
  stored-IsSettled ((ok (priv_key, pub_key)), m) (priv_file, pub_file, priv_line, pub_line) =
      λ (made, priv_read, pub_read).
        generate_keypair-opened m made
        ∙ rw (pub_file, pub_read, priv_file, priv_read, priv_line, pub_line) refl

  module _ (printable : (key : List ℕ) → trim_space (gen.encode key) ≡ gen.encode key) where
    reuse_or_make-IsSettled :
        (o : Result Text) (m : Machine)
        → (read_file os (paths os).public_key m).0 ≡ o
        → IsSettled (reuse_or_make os gen o m)
    unfolding IsSettled read_or_empty
    reuse_or_make-IsSettled (ok existing) m h =
        λ (made, _, _). generate_keypair-opened m made ∙ ap (λ o. reuse_or_make os gen o m) h
    reuse_or_make-IsSettled (err e) m h =
        stored-IsSettled (new_keypair os gen m) (new_keypair-IsStored os gen printable m)

    made-IsSettled :
        (r : Result (Unit {0})) (m : Machine)
        → IsSettled (
            continue
              (λ _ n.
                let (existing, n') = read_file os (paths os).public_key n in
                reuse_or_make os gen existing n')
              (r, m))
    unfolding IsSettled read_file
    made-IsSettled (err e) m = tt
    made-IsSettled (ok _) m = reuse_or_make-IsSettled _ m refl

    generate_keypair-IsSettled : (m : Machine) → IsSettled (generate_keypair os gen m)
    unfolding generate_keypair mkdir_all
    generate_keypair-IsSettled m = made-IsSettled (mkdir_all os (dir_of (paths os).config) m).0 m

-- A provider that has its WireGuard keys from GenerateKeypair, made or reused, gets the same keys
-- when it calls it again on the machine as that call has left it, and nothing changes, if the
-- directory and both files can be read and base64 text has no white space at its ends.
pub generate_keypair-restarts :
    (os : Os) (gen : Keygen) (keys : Text × Text) (m m' : Machine)
    → ((key : List ℕ) → trim_space (gen.encode key) ≡ gen.encode key)
    → generate_keypair os gen m ≡ (ok keys, m')
    → IsReadable os m'
    → generate_keypair os gen m' ≡ (ok keys, m')
unfolding IsSettled
generate_keypair-restarts os gen keys m m' printable e =
    subst (IsSettled os gen) e (generate_keypair-IsSettled os gen printable m)
