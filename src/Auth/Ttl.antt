-- ===== src/Auth/Ttl.antt =====
-- src/auth/utils/ttl.util.ts: durations such as "15m" as whole seconds. A number is exact here,
-- where the code's is a double.
use backend_assessment_chall.Prelude.{
  Bool, Option, [], if◌then◌else◌, leb, none, some, ℕ, ◌&&◌, ◌*◌, ◌+◌, ◌-◌, ◌==◌, ◌||◌, ◌∷◌,
}
use backend_assessment_chall.Prelude.Text.{Text}

-- The white space and line ends that `trim` takes off.
unfoldable pub is_space : ℕ → Bool
is_space c =
    (leb 9 c && leb c 13)
    || (c == 32)
    || (c == 160)
    || (c == 5760)
    || (leb 8192 c && leb c 8202)
    || (c == 8232)
    || (c == 8233)
    || (c == 8239)
    || (c == 8287)
    || (c == 12288)
    || (c == 65279)

unfoldable pub trim_start : Text → Text
trim_start [] = []
trim_start (c ∷ cs) = if is_space c then trim_start cs else c ∷ cs

-- `c` before what is left of the rest.
abbrev pub trim_before : ℕ → Text → Text
trim_before c [] = if is_space c then [] else c ∷ []
trim_before c (d ∷ ds) = c ∷ d ∷ ds

unfoldable pub trim_end : Text → Text
trim_end [] = []
trim_end (c ∷ cs) = trim_before c (trim_end cs)

unfoldable pub is_digit : ℕ → Bool
is_digit c = leb 48 c && leb c 57

-- The table `multipliers`.
unfoldable pub multiplier : ℕ → Option ℕ
multiplier c =
    if c == 115
    then some 1
    else if c == 109
    then some 60
    else if c == 104
    then some (60 * 60)
    else if c == 100
    then some (60 * 60 * 24)
    else none

-- The unit, which ends the text.
unfoldable pub last_unit : ℕ → ℕ → Text → Option ℕ
last_unit amount c [] = elim (multiplier c) [ none ↦ none | some m ↦ some (amount * m) ]
last_unit amount c (d ∷ ds) = none

-- The rest of the match after the first digit, with the number read so far.
unfoldable pub read_ttl : ℕ → Text → Option ℕ
read_ttl amount [] = some amount
read_ttl amount (c ∷ cs) =
    let more : Option ℕ = read_ttl (10 * amount + (c - 48)) cs in
    if is_digit c then more else last_unit amount c cs

-- `/^(\d+)(s|m|h|d)?$/`
unfoldable pub match_ttl : Text → Option ℕ
match_ttl [] = none
match_ttl (c ∷ cs) = if is_digit c then read_ttl (c - 48) cs else none

-- None, where the code throws `Invalid TTL format`.
unfoldable pub ttl_to_seconds : Text → Option ℕ
ttl_to_seconds value = match_ttl (trim_end (trim_start value))
