-- ===== src/Provider/Meminfo/Atoi.antt =====
-- What is read back of a number that the kernel printed.
use provider_engine.Base.{
  ℕ, ◌+◌, ◌*◌, ◌-◌, ◌/◌, ◌≤◌, ◌<◌, Text, bytes, pos, List, [], ◌∷◌, ◌++◌, true, false, some, ◌≡◌,
  ◌≢◌, refl, ap, ◌∙◌, All, IsDigit, decimal, decimal-IsDigit, value_from, value-decimal,
  decimal-full, arith,
}
use provider_engine.Strings.{split_lines}
use provider_engine.Provider.Meminfo.{
  digits, unsigned, atoi, max_int, u64_limit, fields, find_line, has_prefix, mem_free_mb,
}

value_from-le : (n : ℕ) (s : Text) → n ≤ value_from n s
unfolding value_from
value_from-le n [] = omega arith
value_from-le n (c ∷ s) = omega (arith, value_from-le (n * 10 + (c - 48)) s)

digits-value :
    (n : ℕ) (s : Text)
    → All IsDigit s
    → value_from n s < u64_limit
    → digits n s ≡ some (value_from n s)
unfolding digits value_from
digits-value n [] h lt = refl
digits-value n (c ∷ s) ((lo, hi), h) lt =
    let m = n * 10 + (c - 48) in
    let same : 10 * n + (c - 48) ≡ m = omega arith in
    rw same (ground (arith, digits-value m s h lt, value_from-le m s))

atoi-digits :
    (s : Text) → s ≢ [] → All IsDigit s → value_from 0 s ≤ max_int → atoi s ≡ pos (value_from 0 s)
unfolding atoi unsigned
atoi-digits [] full h le = absurd (full refl)
atoi-digits (c ∷ s) full ((lo, hi), h) le =
    ground (arith, digits-value 0 (c ∷ s) ((lo, hi), h) (omega arith))

-- Atoi reads back a number that was printed in decimal digits, if it fits an int.
atoi-decimal : (n : ℕ) → n ≤ max_int → atoi (decimal n) ≡ pos n
atoi-decimal n le =
    atoi-digits (decimal n) (decimal-full n) (decimal-IsDigit n) (omega (arith, value-decimal n))
    ∙ ap pos (value-decimal n)

first_line :
    (name : Text) (n : ℕ) (before after rest : List Text) (l : Text)
    → n ≤ max_int
    → All (λ x. has_prefix name x ≡ false) before
    → has_prefix name l ≡ true
    → fields l ≡ name ∷ decimal n ∷ rest
    → find_line name (before ++ l ∷ after) ≡ pos (n / 1024)
first_line name n [] after rest l le none_before starts cut =
    rw (starts, cut, atoi-decimal n le) refl
first_line name n (x ∷ before) after rest l le (differs, none_before) starts cut =
    rw differs (first_line name n before after rest l le none_before starts cut)

-- When the first line of /proc/meminfo that starts with "MemAvailable:" has a number of kB as its
-- second field, which fits an int, the free memory is that number divided by 1024.
pub mem_free_mb-line :
    (n : ℕ) (text : Text) (before after rest : List Text) (l : Text)
    → n ≤ max_int
    → split_lines text ≡ before ++ l ∷ after
    → All (λ x. has_prefix (bytes "MemAvailable:") x ≡ false) before
    → has_prefix (bytes "MemAvailable:") l ≡ true
    → fields l ≡ bytes "MemAvailable:" ∷ decimal n ∷ rest
    → mem_free_mb (some text) ≡ pos (n / 1024)
unfolding mem_free_mb
mem_free_mb-line n text before after rest l le lines none_before starts cut =
    rw lines (first_line _ n before after rest l le none_before starts cut)
