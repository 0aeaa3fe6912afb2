-- ===== src/Planning/Slots/Reported.antt =====
-- What `compute_missing_slots` reports: which values of the state are missing, and why.
use neuronium.Prelude.{
  ◌<◌, String, ◌≡◌, refl, sym, ap, ◌∙◌, subst, true, false, not, ◌&&◌, none, some, List, [], ◌∷◌,
  ◌++◌, arith, has, any_of, length, str_eq, eq_refl, ok, >>=-eq-ok, ok-injective, Bool-cases,
  Option-cases, inl, inr, ◌⊎◌,
}
use neuronium.Prelude.Text.{append}
use neuronium.Prelude.Value.{Value, Fields, null, is_null}
use neuronium.Planning.Patch.{value_at}
use neuronium.Schemas.Pointer.{pointer_tokens, split_slash}
use neuronium.Planning.Slots.Defs.{
  MissingSlot, SlotReason, value_missing, value_null, fragment_at, schema_allows_null, parents_from,
  parents_of, has_missing_ancestor, slot_at, collect_slots, required_pointers,
  compute_missing_slots,
}
use neuronium.Planning.Slots.Report.{paths_of, slot_at-path, collect_slots-IsReport}
use neuronium.Planning.Slots.Required.{Required, required_pointers-Required}

-- `"/".join`, after a first part
abbrev pub joined : String → List String → String
joined first [] = first
joined first (p ∷ ps) = joined (append first (append "/" p)) ps

-- A path is above another one: its parts are the first ones of the other, at least two and not all.
abbrev pub Above : String → String → Type 0
Above upper lower =
    (first : String) × (some_parts : List String) × (next : String) × (rest : List String)
    × ((split_slash lower ≡ first ∷ (some_parts ++ next ∷ rest))
        × (0 < length some_parts)
        × (upper ≡ joined first some_parts))

-- The value at a path of the state is missing, or a null that the schema at the path does not allow.
abbrev pub Unfilled : Value → Fields → List String → SlotReason → Type 0
Unfilled state schema tokens value_missing = value_at tokens state ≡ none
Unfilled state schema tokens value_null =
    (value_at tokens state ≡ some null) × (schema_allows_null (fragment_at tokens schema) ≡ false)

abbrev pub IsSlot : Value → Fields → String → MissingSlot → Type 0
IsSlot state schema base s =
    Required schema base s.path
    × ((tokens : List String) × ((pointer_tokens s.path ≡ ok tokens)
          × (s.expected_schema ≡ fragment_at tokens schema)
          × Unfilled state schema tokens s.reason))

abbrev pub AllSlots : (MissingSlot → Type 0) → List MissingSlot → Type 0
AllSlots P [] = Unit {0}
AllSlots P (s ∷ ss) = P s × AllSlots P ss

all_mono :
    (P Q : MissingSlot → Type 0) (ss : List MissingSlot)
    → ((s : MissingSlot) → P s → Q s)
    → AllSlots P ss
    → AllSlots Q ss
all_mono P Q [] f h = tt
all_mono P Q (s ∷ ss) f h = (f s h.0, all_mono P Q ss f h.1)

null_of : (v : Value) → is_null v ≡ true → v ≡ null
null_of null h = refl
null_of (Value.bool b) h = absurd (cc)
null_of (Value.int z) h = absurd (cc)
null_of (Value.float t) h = absurd (cc)
null_of (Value.str s) h = absurd (cc)
null_of (Value.arr xs) h = absurd (cc)
null_of (Value.obj fs) h = absurd (cc)

parents_from-joined :
    (missing : List String) (seen : String) (ps : List String)
    → any_of (λ q. has q missing) (parents_from seen ps) ≡ true
    → (parts : List String) × (next : String) × (rest : List String) × ((ps ≡ parts ++ next ∷ rest)
        × (0 < length parts)
        × (has (joined seen parts) missing ≡ true))
unfolding parents_from
parents_from-joined missing seen [] h = absurd (cc)
parents_from-joined missing seen (p ∷ []) h = absurd (cc)
parents_from-joined missing seen (p ∷ q ∷ ps) h =
    let here = append seen (append "/" p) in
    elim (Bool-cases (has here missing)) [
      | inl there ↦ (p ∷ [], q, ps, (refl, omega arith, there))
      | inr other ↦
          let (parts, next, rest, (same, some_part, among)) =
            parents_from-joined missing here (q ∷ ps) (ground (arith, other)) in
          (p ∷ parts, next, rest, (ap (λ xs. p ∷ xs) same, omega arith, among))
    ]

has_missing_ancestor-Above :
    (path : String) (missing : List String)
    → has_missing_ancestor path missing ≡ true
    → (upper : String) × (has upper missing ≡ true) × Above upper path
unfolding has_missing_ancestor
has_missing_ancestor-Above path missing h = go (split_slash path) refl h
  where
    go :
        (ps : List String)
        → split_slash path ≡ ps
        → any_of (λ q. has q missing) (parents_of ps) ≡ true
        → (upper : String) × (has upper missing ≡ true) × Above upper path
    go [] e k = absurd (cc k)
    go (first ∷ ps) e k =
        let (parts, next, rest, (same, some_part, among)) =
          parents_from-joined missing first ps k in
        (
          joined first parts,
          among,
          (first, parts, next, rest, (e ∙ ap (λ xs. first ∷ xs) same, some_part, refl)),
        )

module _ (state : Value) (schema : Fields) where
  -- A slot is found at a path that it names.
  abbrev FoundAt : List String → MissingSlot → Type 0
  FoundAt paths s = (has s.path paths ≡ true) × (slot_at state schema s.path ≡ ok (some s))

  found-later :
      (path : String) (paths : List String) (slots : List MissingSlot)
      → AllSlots (FoundAt paths) slots
      → AllSlots (FoundAt (path ∷ paths)) slots
  found-later path paths slots h =
      all_mono (FoundAt paths) (FoundAt (path ∷ paths)) slots (λ s f. (ground (arith, f.0), f.1)) h

  collect_slots-FoundAt :
      (paths missing : List String) (slots : List MissingSlot)
      → collect_slots state schema paths missing ≡ ok slots
      → AllSlots (FoundAt paths) slots
  unfolding collect_slots
  collect_slots-FoundAt [] missing slots h = subst (AllSlots (FoundAt [])) (ok-injective h) tt
  collect_slots-FoundAt (path ∷ paths) missing slots h =
      elim (Bool-cases (has_missing_ancestor path missing)) [
        | inl above ↦
            found-later path paths slots
              (collect_slots-FoundAt paths missing slots (ground (arith, above, h)))
        | inr free ↦
            let (found, f, h') =
              >>=-eq-ok (slot_at state schema path) _ (rw (free, collect_slots) at h) in
            elim (Option-cases found) [
              | inl n ↦
                  found-later path paths slots
                    (collect_slots-FoundAt paths missing slots (rw n at h'))
              | inr (slot, n) ↦
                  let (rest, r, h'') =
                    >>=-eq-ok (collect_slots state schema paths (missing ++ path ∷ [])) _
                      (rw n at h') in
                  let at : slot_at state schema path ≡ ok (some slot) = f ∙ ap (λ x. ok x) n in
                  let same = slot_at-path state schema path slot at in
                  subst (AllSlots (FoundAt (path ∷ paths))) (ok-injective h'') (
                    (
                      ground (arith, eq_refl path, ap (str_eq path) same),
                      subst (λ q. slot_at state schema q ≡ ok (some slot)) (sym same) at,
                    ),
                    found-later path paths rest
                        (collect_slots-FoundAt paths (missing ++ path ∷ []) rest r),
                  )
            ]
      ]

  -- What a slot is.
  slot_at-Unfilled :
      (path : String) (s : MissingSlot)
      → slot_at state schema path ≡ ok (some s)
      → (tokens : List String) × ((pointer_tokens path ≡ ok tokens)
          × (s.expected_schema ≡ fragment_at tokens schema)
          × Unfilled state schema tokens s.reason)
  unfolding slot_at
  slot_at-Unfilled path s h =
      let (tokens, t, h') = >>=-eq-ok (pointer_tokens path) _ h in
      let slot : SlotReason → MissingSlot =
        λ r. record { path = path; expected_schema = fragment_at tokens schema; reason = r } in
      let good : (r : SlotReason)
          → Unfilled state schema tokens r
          → slot r ≡ s
          → (tokens' : List String) × ((pointer_tokens path ≡ ok tokens')
              × (s.expected_schema ≡ fragment_at tokens' schema)
              × Unfilled state schema tokens' s.reason) =
        λ r u same. (
          tokens,
          (
            t,
            ap (λ (x : MissingSlot). x.expected_schema) (sym same),
            subst (λ (x : MissingSlot). Unfilled state schema tokens x.reason) same u,
          ),
        ) in
      elim (Option-cases (value_at tokens state)) [
        | inl e ↦ good value_missing e (ground (arith, e, h'))
        | inr (v, e) ↦
            elim (Bool-cases (is_null v && not (schema_allows_null (fragment_at tokens schema)))) [
              | inl c ↦
                  good value_null (e ∙ ap (λ x. some x) (null_of v (ground arith)), ground arith)
                    (ground (arith, e, c, h'))
              | inr c ↦ absurd (ground (arith, e, c, h'))
            ]
      ]

  Unfilled-slot_at :
      (path : String) (tokens : List String) (r : SlotReason)
      → pointer_tokens path ≡ ok tokens
      → Unfilled state schema tokens r
      → (s : MissingSlot) × (slot_at state schema path ≡ ok (some s))
  unfolding slot_at
  Unfilled-slot_at path tokens value_missing t u = (
    record { path = path; expected_schema = fragment_at tokens schema; reason = value_missing },
    rw (t, u) refl,
  )
  Unfilled-slot_at path tokens value_null t u = (
    record { path = path; expected_schema = fragment_at tokens schema; reason = value_null },
    rw (t, u.0, u.1) refl,
  )

-- What is reported of a state.
pub record Reports (state : Value) (schema : Fields) (base : String) (slots : List MissingSlot)
    : Type 0 where
  -- each slot is a required path with its schema and its reason
  pub sound : AllSlots (IsSlot state schema base) slots
  -- a required path with a reason is reported, or a path above it is
  pub complete :
      (path : String) (tokens : List String) (r : SlotReason)
      → Required schema base path
      → pointer_tokens path ≡ ok tokens
      → Unfilled state schema tokens r
      → (has path (paths_of slots) ≡ true)
        ⊎ ((upper : String) × (has upper (paths_of slots) ≡ true) × Above upper path)

pub compute_missing_slots-Reports :
    (state : Value) (schema : Fields) (base : String) (slots : List MissingSlot)
    → compute_missing_slots state schema base ≡ ok slots
    → Reports state schema base slots
unfolding compute_missing_slots
compute_missing_slots-Reports state schema base slots h =
    let (paths, found, exact) = required_pointers-Required schema base in
    let (paths', p, h') = >>=-eq-ok (required_pointers schema base) _ h in
    let same : paths' ≡ paths = ok-injective (sym p ∙ found) in
    let collected : collect_slots state schema paths [] ≡ ok slots =
      subst (λ ps. collect_slots state schema ps [] ≡ ok slots) same h' in
    let report = collect_slots-IsReport state schema paths [] slots collected in
    record {
      sound =
          all_mono (FoundAt state schema paths) (IsSlot state schema base) slots
            (λ s f. ((exact s.path).0 f.0, slot_at-Unfilled state schema s.path s f.1))
            (collect_slots-FoundAt state schema paths [] slots collected);
      complete = λ path tokens r required t u.
          let misses = Unfilled-slot_at state schema path tokens r t u in
          let known = report.complete path ((exact path).1 required) misses in
          elim (Bool-cases (has path (paths_of slots))) [
            | inl there ↦ inl there
            | inr other ↦
                inr
                  (has_missing_ancestor-Above path (paths_of slots) (ground (arith, known, other)))
          ];
    }
