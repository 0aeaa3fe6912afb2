-- ===== src/Prelude/Text.antt =====
-- Python's text operations that the code uses, over the code points of a text.
use Prim.Native.Char.{code}
use Prim.Native.String.{String}
use Prim.Native.Nat.{ℕ, zero, suc, ◌+◌, ◌/◌, ◌%◌}
use mathlib.Core.Bool.{Bool, true, false, ◌&&◌, ◌||◌}
use mathlib.Core.List.{List, [], ◌∷◌, map}
use neuronium.Prelude.Tests.{leb, ltb, nat_eq, if◌then◌else◌}

abbrev pub codes : String → List ℕ
codes String.[] = []
codes (String.◌∷◌ c s) = code c ∷ codes s

-- `c.lower()` for an ASCII character; any other character is left as it is.
unfoldable pub lower_code : ℕ → ℕ
lower_code n = if leb b'A' n && leb n b'Z' then n + 32 else n

-- `s.lower()`
abbrev pub lower : String → List ℕ
lower s = map lower_code (codes s)

-- `s.startswith(p)`
abbrev pub is_prefix : List ℕ → List ℕ → Bool
is_prefix [] s = true
is_prefix (c ∷ p) [] = false
is_prefix (c ∷ p) (d ∷ s) = nat_eq c d && is_prefix p s

-- `p in s`
unfoldable pub is_infix : List ℕ → List ℕ → Bool
is_infix p [] = is_prefix p []
is_infix p (d ∷ s) = is_prefix p (d ∷ s) || is_infix p s

-- `s + t`
unfoldable pub append : String → String → String
append String.[] t = t
append (String.◌∷◌ c s) t = String.◌∷◌ c (append s t)

-- The ASCII blanks that `str.strip` takes off.
abbrev pub is_blank : ℕ → Bool
is_blank n = nat_eq n 32 || (leb 9 n && leb n 13) || (leb 28 n && leb n 31)

unfoldable pub strip_left : String → String
strip_left String.[] = String.[]
strip_left (String.◌∷◌ c s) =
    let rest = strip_left s in if is_blank (code c) then rest else String.◌∷◌ c s

abbrev cons_unless_blank : Bool → String → String → String
cons_unless_blank true String.[] s = String.[]
cons_unless_blank _ r s = s

unfoldable pub strip_right : String → String
strip_right String.[] = String.[]
strip_right (String.◌∷◌ c s) =
    let rest = strip_right s in cons_unless_blank (is_blank (code c)) rest (String.◌∷◌ c rest)

-- `s.strip()`
unfoldable pub strip : String → String
strip s = strip_right (strip_left s)

-- The last decimal digit of a number.
abbrev pub digit : ℕ → String
digit n =
    if nat_eq n 0
    then "0"
    else if nat_eq n 1
    then "1"
    else if nat_eq n 2
    then "2"
    else if nat_eq n 3
    then "3"
    else if nat_eq n 4
    then "4"
    else if nat_eq n 5
    then "5"
    else if nat_eq n 6
    then "6"
    else if nat_eq n 7
    then "7"
    else if nat_eq n 8
    then "8"
    else "9"

-- The decimal digits of `n`, before `acc`; a number has at most one digit more than its value.
unfoldable pub show_onto : ℕ → ℕ → String → String
show_onto zero n acc = acc
show_onto (suc fuel) n acc =
    let now = append (digit (n % 10)) acc in
    let rest = show_onto fuel (n / 10) now in if ltb n 10 then now else rest

-- `str(n)`
unfoldable pub show : ℕ → String
show n = show_onto (n + 1) n ""
