-- ===== src/Schemas/Pointer/Defs.antt =====
-- `_escape_json_pointer_token`, `_unescape_json_pointer_token`, `_pointer_join` and `_pointer_tokens`,
-- with `str.replace` and `str.split` on the characters that they look for.
use Prim.Native.Char.{Char, code}
use Prim.Native.String.{String}
use neuronium.Prelude.Text.{append}
use neuronium.Prelude.{
  ℕ, Bool, false, List, [], ◌∷◌, map, nat_eq, if◌then◌else◌, str_eq, Result, ok, err, value_error,
}

abbrev pub is_char : ℕ → Char → Bool
is_char n c = nat_eq (code c) n

-- `s.replace(a, r)` for one character `a`
unfoldable pub replace_char : ℕ → String → String → String
replace_char a r String.[] = String.[]
replace_char a r (String.◌∷◌ c s) =
    let rest = replace_char a r s in if is_char a c then append r rest else String.◌∷◌ c rest

-- `s.replace("~" + b, r)`, from left to right. `held` says that a "~" has been read and not written.
unfoldable pub replace_tilde : ℕ → Char → Bool → String → String
replace_tilde b r held String.[] = if held then "~" else String.[]
replace_tilde b r held (String.◌∷◌ c s) =
    let rest = replace_tilde b r (is_char b'~' c) s in
    if is_char b'~' c
    then (if held then String.◌∷◌ "~" rest else rest)
    else if held
    then (if is_char b c then String.◌∷◌ r rest else String.◌∷◌ "~" (String.◌∷◌ c rest))
    else String.◌∷◌ c rest

unfoldable pub escape_token : String → String
escape_token token = replace_char b'/' "~1" (replace_char b'~' "~0" token)

unfoldable pub unescape_token : String → String
unescape_token token = replace_tilde b'0' "~" false (replace_tilde b'1' "/" false token)

-- `s.split("/")`
abbrev pub add_to_first : Char → List String → List String
add_to_first c [] = String.◌∷◌ c String.[] ∷ []
add_to_first c (t ∷ ts) = String.◌∷◌ c t ∷ ts

unfoldable pub split_slash : String → List String
split_slash String.[] = String.[] ∷ []
split_slash (String.◌∷◌ c s) =
    let rest = split_slash s in if is_char b'/' c then String.[] ∷ rest else add_to_first c rest

unfoldable pub pointer_join : String → String → String
pointer_join base token =
    if str_eq base ""
    then String.◌∷◌ "/" (escape_token token)
    else append base (String.◌∷◌ "/" (escape_token token))

unfoldable pub pointer_tokens : String → Result (List String)
pointer_tokens String.[] = ok []
pointer_tokens (String.◌∷◌ c s) =
    if is_char b'/' c then ok (map unescape_token (split_slash s)) else err value_error
