-- ===== src/Planning/Slots/Report.antt =====
-- Which paths the collection of the slots reports, in terms of `slot_at`.
use mathlib.Core.List.{append_assoc}
use neuronium.Prelude.{
  String, ◌≡◌, sym, ap, ◌∙◌, subst, true, ◌||◌, none, some, List, [], ◌∷◌, ◌++◌, arith, has, any_of,
  str_eq, eq_iff, ok, >>=-eq-ok, ok-injective, Bool-cases, Option-cases, inl, inr,
}
use neuronium.Prelude.Value.{Value, Fields}
use neuronium.Schemas.Pointer.{pointer_tokens, split_slash}
use neuronium.Planning.Slots.Defs.{
  MissingSlot, parents_of, has_missing_ancestor, slot_at, collect_slots,
}

abbrev pub paths_of : List MissingSlot → List String
paths_of [] = []
paths_of (s ∷ ss) = s.path ∷ paths_of ss

any_of_mono :
    (a b xs : List String)
    → ((s : String) → has s a ≡ true → has s b ≡ true)
    → any_of (λ p. has p a) xs ≡ true
    → any_of (λ p. has p b) xs ≡ true
any_of_mono a b [] sub h = absurd (cc)
any_of_mono a b (x ∷ xs) sub h = ground (arith, sub x, any_of_mono a b xs sub)

has-append_left : (s : String) (a b : List String) → has s a ≡ true → has s (a ++ b) ≡ true
has-append_left s [] b h = absurd (cc)
has-append_left s (x ∷ a) b h = ground (arith, has-append_left s a b)

pub slot_at-path :
    (state : Value) (schema : Fields) (path : String) (slot : MissingSlot)
    → slot_at state schema path ≡ ok (some slot)
    → slot.path ≡ path
unfolding slot_at
slot_at-path state schema path slot h =
    let (tokens, t, h') = >>=-eq-ok (pointer_tokens path) _ h in ground (arith, h')

module _ (state : Value) (schema : Fields) where
  -- A required path that is a missing slot.
  abbrev pub Misses : String → Type 0
  Misses p = (s : MissingSlot) × (slot_at state schema p ≡ ok (some s))

  pub record IsReport (paths missing : List String) (slots : List MissingSlot) : Type 0 where
    -- what is reported is a required path and a missing slot
    pub sound : (p : String) → has p (paths_of slots) ≡ true → (has p paths ≡ true) × Misses p
    -- a missing slot is reported, or a required path above it is
    pub complete :
        (p : String)
        → has p paths ≡ true
        → Misses p
        → (has p (paths_of slots) || has_missing_ancestor p (missing ++ paths_of slots)) ≡ true

  -- A path below a missing one is left out.
  below-IsReport :
      (path : String) (paths missing : List String) (slots : List MissingSlot)
      → has_missing_ancestor path missing ≡ true
      → IsReport paths missing slots
      → IsReport (path ∷ paths) missing slots
  unfolding has_missing_ancestor
  below-IsReport path paths missing slots above r = record {
    sound = λ p k. (ground (arith, (r.sound p k).0), (r.sound p k).1);
    complete = λ p k m. elim (Bool-cases (str_eq path p)) [
      | inl e ↦
          let there =
            any_of_mono missing (missing ++ paths_of slots) (parents_of (split_slash path))
              (λ x y. has-append_left x missing (paths_of slots) y) above in
          ground (
            arith,
            ap
                (λ (x : String).
                  any_of (λ q. has q (missing ++ paths_of slots)) (parents_of (split_slash x)))
                ((eq_iff path p).0 e),
            there,
          )
      | inr e ↦ r.complete p (ground (arith, e)) m
    ];
  }

  -- A path at which nothing is missing is left out.
  present-IsReport :
      (path : String) (paths missing : List String) (slots : List MissingSlot)
      → slot_at state schema path ≡ ok none
      → IsReport paths missing slots
      → IsReport (path ∷ paths) missing slots
  present-IsReport path paths missing slots nothing r = record {
    sound = λ p k. (ground (arith, (r.sound p k).0), (r.sound p k).1);
    complete = λ p k m. elim (Bool-cases (str_eq path p)) [
      | inl e ↦
          absurd (ground (arith, nothing, m.1, ap (slot_at state schema) ((eq_iff path p).0 e)))
      | inr e ↦ r.complete p (ground (arith, e)) m
    ];
  }

  -- A missing slot is reported, and hides the paths below it.
  found-IsReport :
      (path : String) (paths missing : List String) (slot : MissingSlot) (slots : List MissingSlot)
      → slot_at state schema path ≡ ok (some slot)
      → IsReport paths (missing ++ path ∷ []) slots
      → IsReport (path ∷ paths) missing (slot ∷ slots)
  found-IsReport path paths missing slot slots found r =
      let same = slot_at-path state schema path slot found in
      let joined : (missing ++ path ∷ []) ++ paths_of slots ≡ missing ++ paths_of (slot ∷ slots) =
        append_assoc missing (path ∷ []) (paths_of slots)
        ∙ ap (λ x. missing ++ x ∷ paths_of slots) (sym same) in
      record {
        sound = λ p k. elim (Bool-cases (str_eq path p)) [
          | inl e ↦ (ground (arith, e), subst Misses ((eq_iff path p).0 e) (slot, found))
          | inr e ↦
              let rest = r.sound p (ground (arith, e, k, ap (λ x. str_eq x p) same)) in
              (ground (arith, rest.0), rest.1)
        ];
        complete = λ p k m. elim (Bool-cases (str_eq path p)) [
          | inl e ↦ ground (arith, e, ap (λ x. str_eq x p) same)
          | inr e ↦
              let rest = r.complete p (ground (arith, e)) m in
              ground (arith, rest, ap (has_missing_ancestor p) joined)
        ];
      }

  pub collect_slots-IsReport :
      (paths missing : List String) (slots : List MissingSlot)
      → collect_slots state schema paths missing ≡ ok slots
      → IsReport paths missing slots
  unfolding collect_slots
  collect_slots-IsReport [] missing slots h = record {
    sound = λ p k. absurd (ground (arith, h));
    complete = λ p k m. absurd (cc);
  }
  collect_slots-IsReport (path ∷ paths) missing slots h =
      elim (Bool-cases (has_missing_ancestor path missing)) [
        | inl above ↦
            below-IsReport path paths missing slots above
              (collect_slots-IsReport paths missing slots (ground (arith, above, h)))
        | inr free ↦
            let (found, f, h') =
              >>=-eq-ok (slot_at state schema path) _ (rw (free, collect_slots) at h) in
            elim (Option-cases found) [
              | inl n ↦
                  present-IsReport path paths missing slots (f ∙ ap (λ x. ok x) n)
                    (collect_slots-IsReport paths missing slots (rw n at h'))
              | inr (slot, n) ↦
                  let (rest, r, h'') =
                    >>=-eq-ok (collect_slots state schema paths (missing ++ path ∷ [])) _
                      (rw n at h') in
                  subst (IsReport (path ∷ paths) missing) (ok-injective h'') (
                    found-IsReport path paths missing slot rest (f ∙ ap (λ x. ok x) n)
                      (collect_slots-IsReport paths (missing ++ path ∷ []) rest r))
            ]
      ]
