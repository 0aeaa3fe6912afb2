-- ===== src/Recovery/Policy/Repeats.antt =====
-- The Counter of `decide_recovery`: when some node failed often enough.
use neuronium.Prelude.{
  ℕ, suc, ◌+◌, ◌<◌, ◌≤◌, String, ◌≡◌, refl, true, List, [], ◌∷◌, arith, leb, str_eq, eq_iff,
  eq_refl, if◌then◌else◌, Dict, lookup, insert, get_or, lookup-insert, count, KeysOnce,
  insert-KeysOnce, contains-count-keys, contains, Bool-cases, inl, inr,
}
use neuronium.Recovery.Policy.Defs.{tally, tally_all, reaches, repeated}

-- How often a node is named in a history of attempts.
abbrev pub times : String → List (List String) → ℕ
times v [] = 0
times v (attempt ∷ rest) = count v attempt + times v rest

record Counted (seen : String → ℕ) (d : Dict ℕ) : Type 0 where
  value : (v : String) → get_or d v 0 ≡ seen v
  positive : (v : String) → contains v d ≡ true → 0 < get_or d v 0
  once : KeysOnce d

tally-Counted :
    (xs : List String) (seen : String → ℕ) (d : Dict ℕ)
    → Counted seen d
    → Counted (λ v. seen v + count v xs) (tally xs d)
unfolding tally
tally-Counted [] seen d c = record {
  value = λ v. omega (arith, c.value v);
  positive = c.positive;
  once = c.once;
}
tally-Counted (x ∷ xs) seen d c =
    let n = suc (get_or d x 0) in
    let next =
      tally-Counted xs (λ v. seen v + (if str_eq x v then 1 else 0)) (insert x n d)
        (record {
          value = λ v. ground (arith, c.value v, lookup-insert x v n d, eq_iff x v);
          positive = λ v h. ground (arith, c.positive v, lookup-insert x v n d);
          once = insert-KeysOnce x n d c.once;
        }) in
    record { value = λ v. omega (arith, next.value v); positive = next.positive; once = next.once }

tally_all-Counted :
    (attempts : List (List String)) (seen : String → ℕ) (d : Dict ℕ)
    → Counted seen d
    → Counted (λ v. seen v + times v attempts) (tally_all attempts d)
unfolding tally_all
tally_all-Counted [] seen d c = record {
  value = λ v. omega (arith, c.value v);
  positive = c.positive;
  once = c.once;
}
tally_all-Counted (a ∷ as') seen d c =
    let next = tally_all-Counted as' _ (tally a d) (tally-Counted a seen d c) in
    record { value = λ v. omega (arith, next.value v); positive = next.positive; once = next.once }

reaches_sound :
    (t : ℕ) (d : Dict ℕ)
    → KeysOnce d
    → reaches t d ≡ true
    → (k : String) × (contains k d ≡ true) × (t ≤ get_or d k 0)
unfolding lookup
reaches_sound t [] once h = absurd (cc)
reaches_sound t ((k, c) ∷ d) once h = elim (Bool-cases (leb t c)) [
  | inl e ↦ (k, ground (arith, eq_refl k), ground (arith, eq_refl k))
  | inr e ↦
      let (j, p, q) = reaches_sound t d (λ v. ground (arith, once v)) (ground arith) in
      (j, ground (arith, p), ground (arith, q, once j, contains-count-keys j d, eq_iff k j))
]

reaches_complete :
    (t : ℕ) (k : String) (d : Dict ℕ) → contains k d ≡ true → t ≤ get_or d k 0 → reaches t d ≡ true
unfolding lookup
reaches_complete t k [] h le = ground arith
reaches_complete t k ((j, c) ∷ d) h le = ground (arith, reaches_complete t k d)

module _ (t : ℕ) (attempts : List (List String)) where
  counted : Counted (λ v. 0 + times v attempts) (tally_all attempts [])
  counted =
      tally_all-Counted attempts (λ v. 0) []
        (record {
          value = λ v. unfold lookup in refl;
          positive = λ v h. unfold lookup in ground arith;
          once = λ v. omega arith;
        })

-- The rollback counts as repeated exactly when some node is named at least once, and at least
-- `threshold` times, in the history and the current attempt together.
pub repeated_iff :
    (threshold : ℕ) (attempts : List (List String))
    → (repeated threshold attempts ≡ true
        → (v : String) × (0 < times v attempts) × (threshold ≤ times v attempts))
      × ((v : String)
          → 0 < times v attempts
          → threshold ≤ times v attempts
          → repeated threshold attempts ≡ true)
unfolding repeated
repeated_iff t attempts =
    let c = counted t attempts in
    let d = tally_all attempts [] in
    (
      λ h.
          let (v, k, le) = reaches_sound t d c.once h in
          (v, omega (arith, c.value v, c.positive v k), omega (arith, c.value v)),
      λ v p le. reaches_complete t v d (ground (arith, c.value v)) (omega (arith, c.value v)),
    )
