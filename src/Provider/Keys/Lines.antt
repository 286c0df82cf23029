-- ===== src/Provider/Keys/Lines.antt =====
-- The lines of authorized_keys before and after authorizeKey of dcp-provider/internal/vm/ssh.go.
use provider_engine.Base.{
  ℕ, Text, ==_refl, List, [], ◌∷◌, ◌++◌, true, false, none, ◌≡◌, ◌≢◌, ◌⊎◌, refl, ap, eqb, All,
  arith, Bool-cases, inl, inr,
}
use provider_engine.Exec.{ok}
use provider_engine.Strings.{trim_space, prepend, split_lines}
use provider_engine.Provider.Keys.{
  Device, File, has_line, is_authorized, content, add_line, append_key, authorize_canonical,
}

-- the lines after the first
abbrev later_lines : List Text → List Text
later_lines [] = []
later_lines (l ∷ ls) = ls

later_lines-prepend : (c : ℕ) (ls : List Text) → later_lines (prepend c ls) ≡ later_lines ls
unfolding prepend
later_lines-prepend c [] = refl
later_lines-prepend c (l ∷ ls) = refl

has_line-later :
    (key : Text) (ls : List Text) → has_line key (later_lines ls) ≡ true → has_line key ls ≡ true
has_line-later key [] h = h
has_line-later key (l ∷ ls) h = ground arith

later_lines-append :
    (key u v : Text)
    → has_line key (split_lines v) ≡ true
    → has_line key (later_lines (split_lines (u ++ 10 ∷ v))) ≡ true
unfolding split_lines
later_lines-append key [] v h = h
later_lines-append key (c ∷ u) v h = elim (Bool-cases (eqb c 10)) [
  | inl e ↦ rw e (has_line-later key _ (later_lines-append key u v h))
  | inr e ↦ rw (e, later_lines-prepend c (split_lines (u ++ 10 ∷ v))) (later_lines-append key u v h)
]

-- A line has no newline in it.
abbrev pub IsLine : Text → Type 0
IsLine = All λ c. c ≢ 10

split_lines-line : (l : Text) → IsLine l → split_lines (l ++ 10 ∷ []) ≡ l ∷ [] ∷ []
unfolding split_lines prepend
split_lines-line [] h = refl
split_lines-line (c ∷ l) (n, h) = ground (arith, split_lines-line l h)

-- A text whose last line is ended: the empty text, or one that ends in a newline.
abbrev pub IsEnded : Text → Type 0
IsEnded s = (s ≡ []) ⊎ ((u : Text) × (s ≡ u ++ 10 ∷ []))

append-cons : (u : Text) (c : ℕ) (v : Text) → (u ++ c ∷ []) ++ v ≡ u ++ c ∷ v
append-cons [] c v = refl
append-cons (d ∷ u) c v = ap (λ t. d ∷ t) (append-cons u c v)

is_authorized-add_line :
    (key : Text) (f : File)
    → IsLine key
    → trim_space key ≡ key
    → IsEnded (content f)
    → is_authorized key (add_line key f) ≡ true
unfolding is_authorized
is_authorized-add_line key f line trimmed (inl e) =
    rw (e, split_lines-line key line, trimmed, ==_refl key) refl
is_authorized-add_line key f line trimmed (inr (u, e)) =
    rw (e, append-cons u 10 (key ++ 10 ∷ []))
      (has_line-later key _ (
        later_lines-append key u (key ++ 10 ∷ [])
          (rw (split_lines-line key line, trimmed, ==_refl key) refl)))

module _ (d : Device) (key : Text) where
  -- every file operation succeeds
  pub record IsWorking : Type 0 where
    pub home : d.home_error ≡ none
    pub mkdir : d.mkdir_error ≡ none
    pub read : d.can_read ≡ true
    pub open_file : d.open_error ≡ none
    pub write : d.write_error ≡ none

  authorize-found :
      IsWorking → (f : File) → is_authorized key f ≡ true → authorize_canonical d key f ≡ (ok tt, f)
  unfolding authorize_canonical
  authorize-found w f h = rw (w.home, w.mkdir, w.read, h) refl

  authorize-new :
      IsWorking
      → (f : File) → is_authorized key f ≡ false
      → authorize_canonical d key f ≡ (ok tt, add_line key f)
  unfolding authorize_canonical append_key
  authorize-new w f h = rw (w.home, w.mkdir, w.read, h, w.open_file, w.write) refl

  -- When the file operations succeed and the last line of authorized_keys is ended, authorizing a
  -- canonical key, which has no newline and no space at its ends, makes it a line of the file, and
  -- authorizing it again changes nothing.
  pub authorize_canonical-idempotent :
      IsWorking
      → IsLine key
      → trim_space key ≡ key
      → (f : File) → IsEnded (content f)
      → (is_authorized key (authorize_canonical d key f).1 ≡ true)
        × (authorize_canonical d key (authorize_canonical d key f).1
            ≡ (ok tt, (authorize_canonical d key f).1))
  authorize_canonical-idempotent w line trimmed f ended = elim (Bool-cases (is_authorized key f)) [
    | inl e ↦ rw (authorize-found w f e) (e, authorize-found w f e)
    | inr e ↦
        let now = is_authorized-add_line key f line trimmed ended in
        rw (authorize-new w f e) (now, authorize-found w (add_line key f) now)
  ]
