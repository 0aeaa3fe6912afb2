-- ===== src/Schemas/Pointer/Roundtrip.antt =====
-- Reading a pointer gives back the tokens that it was written from.
use Prim.Native.Char.{Char}
use Prim.Native.String.{String}
use neuronium.Prelude.Text.{append}
use text.Mathlib.TextEquality.{Char-path}
use neuronium.Prelude.{
  ◌≡◌, refl, sym, ap, ◌≢◌, not, Bool, true, false, ◌&&◌, List, [], ◌∷◌, ◌++◌, map, arith, str_eq,
  eq_iff, ok, Bool-cases, inl, inr, ok-injective,
}
use neuronium.Schemas.Pointer.Defs.{
  is_char, replace_char, replace_tilde, escape_token, unescape_token, add_to_first, split_slash,
  pointer_join, pointer_tokens,
}

abbrev slash : Char
slash = "/"

-- Undoing the second replacement, and then the first.
unescape_slash :
    (s : String)
    → replace_tilde b'1' "/" false (replace_char b'/' "~1" (replace_char b'~' "~0" s))
      ≡ replace_char b'~' "~0" s
unfolding replace_tilde replace_char append
unescape_slash String.[] = refl
unescape_slash (String.◌∷◌ c s) = elim (Bool-cases (is_char b'~' c)) [
  | inl t ↦ rw (t, is_char) (ap (λ r. String.◌∷◌ "~" (String.◌∷◌ "0" r)) (unescape_slash s))
  | inr t ↦ elim (Bool-cases (is_char b'/' c)) [
    | inl u ↦
        rw (t, u, is_char)
          (rw (Char-path c slash (ground arith)) (ap (String.◌∷◌ slash) (unescape_slash s)))
    | inr u ↦ rw (t, u, is_char) (rw (t, is_char) (ap (String.◌∷◌ c) (unescape_slash s)))
  ]
]

unescape_tilde : (s : String) → replace_tilde b'0' "~" false (replace_char b'~' "~0" s) ≡ s
unfolding replace_tilde replace_char append
unescape_tilde String.[] = refl
unescape_tilde (String.◌∷◌ c s) = elim (Bool-cases (is_char b'~' c)) [
  | inl t ↦
      rw (t, is_char) (rw (Char-path c "~" (ground arith)) (ap (String.◌∷◌ "~") (unescape_tilde s)))
  | inr t ↦ rw (t, is_char) (rw (t, is_char) (ap (String.◌∷◌ c) (unescape_tilde s)))
]

unescape_token-escape_token : (s : String) → unescape_token (escape_token s) ≡ s
unfolding unescape_token escape_token
unescape_token-escape_token s = rw (unescape_slash s) (unescape_tilde s)

abbrev no_slash : String → Bool
no_slash String.[] = true
no_slash (String.◌∷◌ c s) = not (is_char b'/' c) && no_slash s

escape_no_slash : (s : String) → no_slash (escape_token s) ≡ true
unfolding escape_token replace_char append
escape_no_slash String.[] = refl
escape_no_slash (String.◌∷◌ c s) = elim (Bool-cases (is_char b'~' c)) [
  | inl t ↦ rw (t, is_char) (escape_no_slash s)
  | inr t ↦ elim (Bool-cases (is_char b'/' c)) [
    | inl u ↦ rw (t, u, is_char) (escape_no_slash s)
    | inr u ↦ rw (t, u, is_char) (rw (u, is_char) (escape_no_slash s))
  ]
]

split_one : (e : String) → no_slash e ≡ true → split_slash e ≡ e ∷ []
unfolding split_slash
split_one String.[] h = refl
split_one (String.◌∷◌ c s) h =
    let u : is_char b'/' c ≡ false = ground arith in
    rw (u, is_char) (rw (split_one s (ground (arith, u))))

add_to_first-append :
    (c : Char) (ts : List String) (e : String)
    → ts ≢ []
    → add_to_first c (ts ++ e ∷ []) ≡ add_to_first c ts ++ e ∷ []
add_to_first-append c [] e n = absurd (n refl)
add_to_first-append c (t ∷ ts) e n = refl

add_to_first-some : (c : Char) (ts : List String) → add_to_first c ts ≢ []
add_to_first-some c [] h = cc
add_to_first-some c (t ∷ ts) h = cc

cons_not_empty : (c : Char) (s : String) → String.◌∷◌ c s ≢ ""
cons_not_empty c s h = cc

pub split_slash-some : (s : String) → split_slash s ≢ []
unfolding split_slash
split_slash-some String.[] h = cc
split_slash-some (String.◌∷◌ c s) h = elim (Bool-cases (is_char b'/' c)) [
  | inl u ↦ absurd (ground (arith, u))
  | inr u ↦ add_to_first-some c (split_slash s) (rw (u, is_char) at h)
]

not_empty : (c : Char) (s : String) → str_eq (String.◌∷◌ c s) "" ≡ false
not_empty c s = elim (Bool-cases (str_eq (String.◌∷◌ c s) "")) [
  | inr e ↦ e
  | inl e ↦ absurd (cons_not_empty c s ((eq_iff (String.◌∷◌ c s) "").0 e))
]

split_slash-append :
    (s e : String)
    → no_slash e ≡ true
    → split_slash (append s (String.◌∷◌ "/" e)) ≡ split_slash s ++ e ∷ []
unfolding split_slash append
split_slash-append String.[] e h = ap (λ ts. "" ∷ ts) (split_one e h)
split_slash-append (String.◌∷◌ c s) e h = elim (Bool-cases (is_char b'/' c)) [
  | inl u ↦ rw (u, is_char) (ap (λ ts. "" ∷ ts) (split_slash-append s e h))
  | inr u ↦
      rw (u, is_char)
        (rw (split_slash-append s e h)
          (add_to_first-append c (split_slash s) e (split_slash-some s)))
]

map-append :
    (f : String → String) (xs : List String) (x : String)
    → map f (xs ++ x ∷ []) ≡ map f xs ++ f x ∷ []
map-append f [] x = refl
map-append f (y ∷ xs) x = ap (λ ts. f y ∷ ts) (map-append f xs x)

-- Joining a token to a pointer and reading the result gives the tokens of the pointer and then that
-- token, whatever "~" and "/" the token holds.
pub pointer_tokens-pointer_join :
    (base token : String) (ts : List String)
    → pointer_tokens base ≡ ok ts
    → pointer_tokens (pointer_join base token) ≡ ok (ts ++ token ∷ [])
unfolding pointer_tokens pointer_join append
pointer_tokens-pointer_join String.[] token ts h = rw (sym (ok-injective h)) (
    rw (split_one (escape_token token) (escape_no_slash token))
      (ap (λ t. ok (t ∷ [])) (unescape_token-escape_token token)))
pointer_tokens-pointer_join (String.◌∷◌ c s) token ts h =
    let u : is_char b'/' c ≡ true = ground arith in
    let e : map unescape_token (split_slash s) ≡ ts = ground (arith, u) in
    rw (not_empty c s, pointer_join)
      (rw (u, is_char)
        (rw (split_slash-append s (escape_token token) (escape_no_slash token)) (
          rw (
            map-append unescape_token (split_slash s) (escape_token token),
            unescape_token-escape_token token,
            e,
          ))))
