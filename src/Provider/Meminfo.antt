-- ===== src/Provider/Meminfo.antt =====
-- dcp-provider/internal/agent/sysinfo.go: what is read from /proc/meminfo and /proc/loadavg, none
-- if it cannot be read. The text is ASCII.
pub mod Atoi
use provider_engine.Base.{
  ℕ, ◌+◌, ◌*◌, ◌-◌, ◌≤◌, ◌<◌, Text, bytes, ◌==◌, ℤ, pos, negsuc, quot, List, [], ◌∷◌, ◌++◌, Bool,
  true, false, ◌&&◌, not, Option, none, some, eqb, leb, ltb, if◌then◌else◌,
}
use provider_engine.Provider.Client.{ResourceInfo}
use provider_engine.Strings.{split_lines, fields, strip_prefix}

abbrev is_digit : ℕ → Bool
is_digit c = leb 48 c && leb c 57

abbrev u64_limit : ℕ
u64_limit = 18446744073709551616

-- The value of a text of digits. A value that leaves the 64 bits ends the loop at once.
digits : ℕ → Text → Option ℕ
digits n [] = some n
digits n (c ∷ s) =
    let m = 10 * n + (c - 48) in
    let rest = digits m s in
    if is_digit c then (if leb u64_limit m then some u64_limit else rest) else none

unsigned : Text → Option ℕ
unfolding digits
unsigned [] = none
unsigned (c ∷ s) = digits 0 (c ∷ s)

abbrev max_int : ℕ
max_int = 9223372036854775807

-- The value that strconv.Atoi returns: 0 beside a syntax error, the nearest int beside a range
-- error.
abbrev clamp_pos : Option ℕ → ℤ
clamp_pos none = pos 0
clamp_pos (some n) = if leb n max_int then pos n else pos max_int

abbrev clamp_neg : Option ℕ → ℤ
clamp_neg none = pos 0
clamp_neg (some n) =
    if eqb n 0 then pos 0 else if leb n max_int then negsuc (n - 1) else negsuc max_int

unfoldable pub atoi : Text → ℤ
unfolding unsigned
atoi [] = pos 0
atoi (c ∷ s) =
    if eqb c 43
    then clamp_pos (unsigned s)
    else if eqb c 45
    then clamp_neg (unsigned s)
    else clamp_pos (unsigned (c ∷ s))

abbrev second_field : List Text → Option Text
second_field (a ∷ b ∷ fs) = some b
second_field (a ∷ []) = none
second_field [] = none

abbrev has_prefix : Text → Text → Bool
has_prefix p s = elim (strip_prefix p s) [ some _ ↦ true | none ↦ false ]

abbrev kb_to_mb : Option Text → ℤ → ℤ
kb_to_mb none rest = rest
kb_to_mb (some f) rest = quot (atoi f) 1024

-- the loop over the lines
abbrev find_line : Text → List Text → ℤ
find_line name [] = pos 0
find_line name (l ∷ ls) =
    let rest = find_line name ls in
    if has_prefix name l then kb_to_mb (second_field (fields l)) rest else rest

abbrev read_mb : Text → Option Text → ℤ
read_mb name none = pos 0
read_mb name (some text) = find_line name (split_lines text)

unfoldable pub total_mem_mb : Option Text → ℤ
total_mem_mb = read_mb (bytes "MemTotal:")

unfoldable pub mem_free_mb : Option Text → ℤ
mem_free_mb = read_mb (bytes "MemAvailable:")

-- what /proc/loadavg gives, with strconv.ParseFloat, which gives a value beside an error too, as
-- the parameter `parse_float`; a float64 is its bit pattern
abbrev first_load : (Text → ℕ) → List Text → ℕ
first_load parse_float [] = 0
first_load parse_float (f ∷ fs) = parse_float f

unfoldable pub cpu_load : (Text → ℕ) → Option Text → ℕ
cpu_load parse_float none = 0
cpu_load parse_float (some text) = first_load parse_float (fields text)

abbrev pub avail_disk_gb : ℤ
avail_disk_gb = pos 0

unfoldable pub resources : ℤ → Option Text → ResourceInfo
unfolding total_mem_mb
resources num_cpu meminfo = record {
  cpu_cores = num_cpu;
  memory_mb = total_mem_mb meminfo;
  disk_gb = avail_disk_gb;
}
