-- ===== src/Planning/Dag/KeyOrder.antt =====
-- The order of the sort keys `(priority, node_id)` is a total order, so a sort forgets the order in
-- which its items came.
use mathlib.Core.Path.{ap₂}
use text.Mathlib.TextEquality.{Char-path}
use neuronium.Prelude.{
  String, ◌≡◌, refl, sym, ap, ◌∙◌, Bool, true, false, ◌&&◌, ◌||◌, List, [], ◌∷◌, arith, str_eq,
  all_of, key_error, eq_iff, eq_refl, if◌then◌else◌, count, sort_by, insert_by, remove_first, has,
  Dict, lookup, ok, err, Bool-cases, inl, inr, contains, none, some, map, has_of_count,
  count-remove_first,
}
use neuronium.Prelude.Int.{pos, ltℤ, eqℤ}
use neuronium.Planning.Dag.Defs.{GraphNode, Key, key_le, str_le, with_keys, sort_ids}

str_le_total : (s t : String) → (str_le s t || str_le t s) ≡ true
unfolding str_le
str_le_total String.[] t = refl
str_le_total (String.◌∷◌ c s) String.[] = refl
str_le_total (String.◌∷◌ c s) (String.◌∷◌ d t) = ground (arith, str_le_total s t)

str_le_antisymm : (s t : String) → str_le s t ≡ true → str_le t s ≡ true → s ≡ t
unfolding str_le
str_le_antisymm String.[] String.[] h k = refl
str_le_antisymm String.[] (String.◌∷◌ d t) h k = absurd (cc)
str_le_antisymm (String.◌∷◌ c s) String.[] h k = absurd (cc)
str_le_antisymm (String.◌∷◌ c s) (String.◌∷◌ d t) h k =
    ap₂ String.◌∷◌ (Char-path c d (ground arith))
      (str_le_antisymm s t (ground arith) (ground arith))

str_le_trans : (s t u : String) → str_le s t ≡ true → str_le t u ≡ true → str_le s u ≡ true
unfolding str_le
str_le_trans String.[] t u h k = refl
str_le_trans (String.◌∷◌ c s) String.[] u h k = absurd (cc)
str_le_trans (String.◌∷◌ c s) (String.◌∷◌ d t) String.[] h k = absurd (cc)
str_le_trans (String.◌∷◌ c s) (String.◌∷◌ d t) (String.◌∷◌ e u) h k =
    ground (arith, str_le_trans s t u)

key_le_total : (a b : Key) → key_le a b ≡ false → key_le b a ≡ true
unfolding key_le ltℤ eqℤ
key_le_total (p, s) (q, t) h = ground (arith, str_le_total s t)

key_le_antisymm : (a b : Key) → key_le a b ≡ true → key_le b a ≡ true → a ≡ b
unfolding key_le ltℤ eqℤ
key_le_antisymm (p, s) (q, t) h k = ground (arith, str_le_antisymm s t)

key_le_trans : (a b c : Key) → key_le a b ≡ true → key_le b c ≡ true → key_le a c ≡ true
unfolding key_le ltℤ eqℤ
key_le_trans (p, s) (q, t) (r, u) h k = ground (arith, str_le_trans s t u)

insert_by_comm :
    (a b : Key) (ks : List Key)
    → insert_by key_le a (insert_by key_le b ks) ≡ insert_by key_le b (insert_by key_le a ks)
unfolding insert_by
insert_by_comm a b [] = ground (arith, key_le_total a b, key_le_antisymm a b)
insert_by_comm a b (k ∷ ks) = ground (
  arith,
  key_le_total a b,
  key_le_antisymm a b,
  key_le_trans a b k,
  key_le_trans b a k,
  key_le_total b k,
  key_le_total a k,
  key_le_total b a,
  insert_by_comm a b ks,
)

module _ (nmap : Dict GraphNode) where
  key_of : String → Key
  key_of v = (elim (lookup v nmap) [ none ↦ pos 0 | some n ↦ n.priority ], v)

  abbrev all_known : List String → Bool
  all_known xs = all_of (λ v. contains v nmap) xs

  with_keys_of :
      (xs : List String)
      → with_keys nmap xs ≡ (if all_known xs then ok (map key_of xs) else err key_error)
  unfolding with_keys key_of
  with_keys_of [] = refl
  with_keys_of (x ∷ xs) = ground (arith, with_keys_of xs)

  all_known-remove_first :
      (x : String) (xs : List String)
      → has x xs ≡ true
      → all_known xs ≡ (contains x nmap && all_known (remove_first x xs))
  all_known-remove_first x [] h = absurd (cc)
  all_known-remove_first x (y ∷ ys) h = ground (arith, eq_iff y x, all_known-remove_first x ys)

  all_known_counts :
      (xs ys : List String) → ((v : String) → count v xs ≡ count v ys) → all_known xs ≡ all_known ys
  all_known_counts [] [] h = refl
  all_known_counts [] (y ∷ ys) h = absurd (ground (arith, h y, eq_refl y))
  all_known_counts (x ∷ xs) ys h =
      let there : has x ys ≡ true = has_of_count x ys (ground (arith, h x, eq_refl x)) in
      let same : (v : String) → count v xs ≡ count v (remove_first x ys) =
        λ v. ground (arith, h v, count-remove_first x v ys there) in
      ground
        (arith, all_known-remove_first x ys there, all_known_counts xs (remove_first x ys) same)

  sort_by-remove_first :
      (x : String) (xs : List String)
      → has x xs ≡ true
      → sort_by key_le (map key_of xs)
        ≡ insert_by key_le (key_of x) (sort_by key_le (map key_of (remove_first x xs)))
  unfolding sort_by
  sort_by-remove_first x [] h = absurd (cc)
  sort_by-remove_first x (y ∷ ys) h = elim (Bool-cases (str_eq y x)) [
    | inl same ↦ rw (same, remove_first) (rw ((eq_iff y x).0 same))
    | inr other ↦
        rw (other, remove_first)
          (ap (insert_by key_le (key_of y)) (sort_by-remove_first x ys (ground arith))
            ∙ insert_by_comm (key_of y) (key_of x)
                (sort_by key_le (map key_of (remove_first x ys))))
  ]

  sort_by_counts :
      (xs ys : List String)
      → ((v : String) → count v xs ≡ count v ys)
      → sort_by key_le (map key_of xs) ≡ sort_by key_le (map key_of ys)
  unfolding sort_by
  sort_by_counts [] [] h = refl
  sort_by_counts [] (y ∷ ys) h = absurd (ground (arith, h y, eq_refl y))
  sort_by_counts (x ∷ xs) ys h =
      let there : has x ys ≡ true = has_of_count x ys (ground (arith, h x, eq_refl x)) in
      let same : (v : String) → count v xs ≡ count v (remove_first x ys) =
        λ v. ground (arith, h v, count-remove_first x v ys there) in
      ap (insert_by key_le (key_of x)) (sort_by_counts xs (remove_first x ys) same)
      ∙ sym (sort_by-remove_first x ys there)

-- Sorting by (priority, node_id) gives one result for all orders of the same ids.
pub sort_ids_counts :
    (nmap : Dict GraphNode) (xs ys : List String)
    → ((v : String) → count v xs ≡ count v ys)
    → sort_ids nmap xs ≡ sort_ids nmap ys
unfolding sort_ids
sort_ids_counts nmap xs ys same =
    let known = all_known_counts nmap xs ys same in
    rw (with_keys_of nmap xs, with_keys_of nmap ys, known)
      (elim (Bool-cases (all_known nmap ys)) [
        | inl e ↦ rw (e, sort_by_counts nmap xs ys same)
        | inr e ↦ rw e
      ])
