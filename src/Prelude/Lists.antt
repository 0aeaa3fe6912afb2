-- ===== src/Prelude/Lists.antt =====
-- Lists measured by native numbers, Python's `in` and `any`/`all` on lists, and a stable sort.
use Prim.Native.Nat.{ℕ, suc, ◌+◌, ◌<◌, ◌≤◌}
use Prim.Native.String.{String}
use mathlib.Core.Path.{◌≡◌, refl, ap, ◌∙◌}
use mathlib.Core.Logic.{inl, inr}
use mathlib.Core.Bool.{Bool, true, false, ◌&&◌, ◌||◌}
use mathlib.Core.List.{List, [], ◌∷◌, ◌++◌}
use native.Mathlib.Omega.{arith}
use text.Mathlib.Text.{◌==◌ as str_eq}
use text.Mathlib.TextEquality.{eq_iff}
use text.Mathlib.TextPositions.{eq_refl}
use neuronium.Prelude.Tests.{if◌then◌else◌, Bool-cases}

module _ {ℓ} {A : Type ℓ} where
  abbrev pub length : List A → ℕ
  length [] = 0
  length (x ∷ xs) = suc (length xs)

  -- `not xs`
  abbrev pub is_empty : List A → Bool
  is_empty [] = true
  is_empty (x ∷ xs) = false

  -- `[x for x in xs if p(x)]`
  abbrev pub keep : (A → Bool) → List A → List A
  keep p [] = []
  keep p (x ∷ xs) = let rest = keep p xs in if p x then x ∷ rest else rest

  -- `any(p(x) for x in xs)`
  abbrev pub any_of : (A → Bool) → List A → Bool
  any_of p [] = false
  any_of p (x ∷ xs) = p x || any_of p xs

  -- `all(p(x) for x in xs)`
  abbrev pub all_of : (A → Bool) → List A → Bool
  all_of p [] = true
  all_of p (x ∷ xs) = p x && all_of p xs

  -- How many items pass a test.
  abbrev pub count_if : (A → Bool) → List A → ℕ
  count_if p [] = 0
  count_if p (x ∷ xs) = (if p x then 1 else 0) + count_if p xs

  -- Python's `sorted` and `list.sort`: a stable sort by `le`.
  unfoldable pub insert_by : (A → A → Bool) → A → List A → List A
  insert_by le x [] = x ∷ []
  insert_by le x (y ∷ ys) = if le x y then x ∷ y ∷ ys else y ∷ insert_by le x ys

  unfoldable pub sort_by : (A → A → Bool) → List A → List A
  sort_by le [] = []
  sort_by le (x ∷ xs) = insert_by le x (sort_by le xs)

  pub length-append : (xs ys : List A) → length (xs ++ ys) ≡ length xs + length ys
  length-append [] ys = omega arith
  length-append (x ∷ xs) ys = omega (arith, length-append xs ys)

module _ {ℓ} {A : Type ℓ} where
  pub count_if-append :
      (p : A → Bool) (xs ys : List A) → count_if p (xs ++ ys) ≡ count_if p xs + count_if p ys
  count_if-append p [] ys = omega arith
  count_if-append p (x ∷ xs) ys = omega (arith, count_if-append p xs ys)

  pub count_if-insert_by :
      (p : A → Bool) (le : A → A → Bool) (x : A) (xs : List A)
      → count_if p (insert_by le x xs) ≡ count_if p (x ∷ xs)
  unfolding insert_by
  count_if-insert_by p le x [] = refl
  count_if-insert_by p le x (y ∷ ys) = elim (Bool-cases (le x y)) [
    | inl e ↦ rw e
    | inr e ↦ rw e (omega (arith, count_if-insert_by p le x ys))
  ]

module _ {ℓ} {A : Type ℓ} where
  -- Sorting only reorders: every test passes as often as before.
  pub count_if-sort_by :
      (p : A → Bool) (le : A → A → Bool) (xs : List A) → count_if p (sort_by le xs) ≡ count_if p xs
  unfolding sort_by
  count_if-sort_by p le [] = refl
  count_if-sort_by p le (x ∷ xs) =
      count_if-insert_by p le x (sort_by le xs)
      ∙ ap (λ (n : ℕ). (if p x then 1 else 0) + n) (count_if-sort_by p le xs)

-- `k in xs`
abbrev pub has : String → List String → Bool
has k [] = false
has k (x ∷ xs) = str_eq x k || has k xs

-- How often `k` stands in the list.
abbrev pub count : String → List String → ℕ
count k [] = 0
count k (x ∷ xs) = (if str_eq x k then 1 else 0) + count k xs

pub count-append : (k : String) (xs ys : List String) → count k (xs ++ ys) ≡ count k xs + count k ys
count-append k [] ys = omega arith
count-append k (x ∷ xs) ys = omega (arith, count-append k xs ys)

-- `xs.remove(k)` on a list that holds `k`; a list without it is unchanged.
abbrev pub remove_first : String → List String → List String
remove_first k [] = []
remove_first k (x ∷ xs) = if str_eq x k then xs else x ∷ remove_first k xs

pub has_of_count : (k : String) (xs : List String) → 0 < count k xs → has k xs ≡ true
has_of_count k [] h = elim h [ ]
has_of_count k (x ∷ xs) h = ground (arith, has_of_count k xs)

pub count_of_has : (k : String) (xs : List String) → has k xs ≡ true → 0 < count k xs
count_of_has k [] h = ground arith
count_of_has k (x ∷ xs) h = ground (arith, count_of_has k xs)

pub count-remove_first :
    (k j : String) (xs : List String)
    → has k xs ≡ true
    → count j (remove_first k xs) + (if str_eq k j then 1 else 0) ≡ count j xs
count-remove_first k j [] h = ground arith
count-remove_first k j (x ∷ xs) h =
    ground (arith, eq_iff x k, eq_iff k j, eq_iff x j, count-remove_first k j xs)

pub length-remove_first :
    (k : String) (xs : List String) → has k xs ≡ true → length (remove_first k xs) + 1 ≡ length xs
length-remove_first k [] h = ground arith
length-remove_first k (x ∷ xs) h = ground (arith, length-remove_first k xs)

pub has-append :
    (k : String) (x : String) (xs : List String) → has k (xs ++ x ∷ []) ≡ (has k xs || str_eq x k)
has-append k x [] = ground arith
has-append k x (y ∷ xs) = ground (arith, has-append k x xs)

-- A list that holds nothing more often than another of the same length holds the same items.
pub count_eq_of_le :
    (xs ys : List String)
    → ((v : String) → count v xs ≤ count v ys)
    → length xs ≡ length ys
    → (v : String) → count v xs ≡ count v ys
count_eq_of_le [] [] h e v = refl
count_eq_of_le [] (y ∷ ys) h e v = absurd (omega arith)
count_eq_of_le (x ∷ xs) ys h e v =
    let there : has x ys ≡ true = has_of_count x ys (ground (arith, h x, eq_refl x)) in
    let fewer : (j : String) → count j xs ≤ count j (remove_first x ys) =
      λ j. ground (arith, h j, count-remove_first x j ys there) in
    let size : length xs ≡ length (remove_first x ys) =
      omega (arith, length-remove_first x ys there) in
    omega
      (arith, count_eq_of_le xs (remove_first x ys) fewer size v, count-remove_first x v ys there)

pub length-le_of_count :
    (xs ys : List String) → ((v : String) → count v xs ≤ count v ys) → length xs ≤ length ys
length-le_of_count [] ys h = omega arith
length-le_of_count (x ∷ xs) ys h =
    let there : has x ys ≡ true = has_of_count x ys (ground (arith, h x, eq_refl x)) in
    let fewer : (j : String) → count j xs ≤ count j (remove_first x ys) =
      λ j. ground (arith, h j, count-remove_first x j ys there) in
    omega (arith, length-remove_first x ys there, length-le_of_count xs (remove_first x ys) fewer)
