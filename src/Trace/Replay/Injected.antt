-- ===== src/Trace/Replay/Injected.antt =====
-- Which nodes get recorded responses, and which ones.
use neuronium.Prelude.{
  is_empty, ℕ, ◌+◌, ◌<◌, String, ◌≡◌, refl, Bool, true, false, not, ◌&&◌, ◌||◌, Option, none, List,
  [], ◌∷◌, arith, if◌then◌else◌, str_eq, eq_iff, eq_refl, count, count-append, Dict, lookup, get_or,
  contains, lookup-insert, ok, subst, ok-injective, ltb, is_some,
}
use neuronium.Prelude.Value.{Value}
use neuronium.Trace.Replay.Defs.{
  Provider, Report, Injection, inject_node, inject_all, no_injection, inject,
}

-- How often a node that can replay stands in the registry.
abbrev pub capable : String → Dict Bool → ℕ
capable v [] = 0
capable v ((nid, can_replay) ∷ registry) =
    (if can_replay && str_eq nid v then 1 else 0) + capable v registry

-- The list of the report that a node belongs to.
pub record IsReported (strict : Bool) (p : Provider) (registry : Dict Bool) (before after : Report)
    : Type 0 where
  pub recorded :
      (v : String)
      → count v after.injected
        ≡ count v before.injected + (if contains v p.replay_data then capable v registry else 0)
  pub fallback :
      (v : String)
      → count v after.injected_fallback
        ≡ count v before.injected_fallback
          + (if not (contains v p.replay_data) && (not strict && contains v p.node_end_fallback)
              then capable v registry
              else 0)
  pub missed :
      (v : String)
      → count v after.missing
        ≡ count v before.missing
          + (if contains v p.replay_data || (not strict && contains v p.node_end_fallback)
              then 0
              else capable v registry)

inject_all-IsReported :
    (strict : Bool) (p : Provider) (registry : Dict Bool) (i : Injection)
    → IsReported strict p registry i.report (inject_all strict p registry i).report
unfolding inject_all inject_node
inject_all-IsReported strict p [] i = record {
  recorded = λ v. ground arith;
  fallback = λ v. ground arith;
  missed = λ v. ground arith;
}
inject_all-IsReported strict p ((nid, can_replay) ∷ registry) i =
    let rest = inject_all-IsReported strict p registry (inject_node strict p nid can_replay i) in
    let r = i.report in
    record {
      recorded =
          λ v. ground (arith, rest.recorded v, eq_iff nid v, count-append v r.injected (nid ∷ []));
      fallback = λ v.
          ground
            (arith, rest.fallback v, eq_iff nid v, count-append v r.injected_fallback (nid ∷ []));
      missed =
          λ v. ground (arith, rest.missed v, eq_iff nid v, count-append v r.missing (nid ∷ []));
    }

-- The recorded responses that a node may be given.
abbrev pub served : Bool → Provider → String → Option (List Value)
served strict p v =
    if contains v p.replay_data
    then lookup v p.replay_data
    else if not strict
    then lookup v p.node_end_fallback
    else none

abbrev pub at_least_once : ℕ → Bool
at_least_once n = ltb 0 n

inject_all_responses :
    (strict : Bool) (p : Provider) (registry : Dict Bool) (i : Injection) (v : String)
    → lookup v (inject_all strict p registry i).responses ≡ (
        if at_least_once (capable v registry) && is_some (served strict p v)
        then served strict p v
        else lookup v i.responses)
unfolding inject_all inject_node
inject_all_responses strict p [] i v = ground arith
inject_all_responses strict p ((nid, can_replay) ∷ registry) i v = ground (
  arith,
  eq_iff nid v,
  inject_all_responses strict p registry (inject_node strict p nid can_replay i) v,
  lookup-insert nid v (get_or p.replay_data nid []) i.responses,
  lookup-insert nid v (get_or p.node_end_fallback nid []) i.responses,
)

is_empty-count : (xs : List String) → ((v : String) → count v xs ≡ 0) → is_empty xs ≡ true
is_empty-count [] h = refl
is_empty-count (x ∷ xs) h = absurd (ground (arith, h x, eq_refl x))

count-is_empty : (xs : List String) (v : String) → is_empty xs ≡ true → count v xs ≡ 0
count-is_empty [] v h = refl
count-is_empty (x ∷ xs) v h = absurd (cc)

-- What an injection that returns has done.
pub record IsInjected (strict : Bool) (p : Provider) (registry : Dict Bool) (i : Injection)
    : Type 0 where
  pub reported : IsReported strict p registry no_injection.report i.report
  pub responses :
      (v : String)
      → lookup v i.responses
        ≡ (if at_least_once (capable v registry) then served strict p v else none)

-- Every node that can replay is listed once for each time it is registered, as injected, as served by
-- the fallback or as missing, and exactly the first two get responses: those recorded in `replay_data`
-- or else, in best-effort mode only, those of its `node_end` events. Best-effort mode never raises.
pub inject_best_effort :
    (p : Provider) (registry : Dict Bool)
    → (i : Injection) × (inject false p registry ≡ ok i) × IsInjected false p registry i
unfolding inject lookup
inject_best_effort p registry =
    let i = inject_all false p registry no_injection in
    (
      i,
      refl,
      record {
        reported = inject_all-IsReported false p registry no_injection;
        responses = λ v. ground (arith, inject_all_responses false p registry no_injection v);
      },
    )

-- A strict injection succeeds exactly when every registered node that can replay has `replay_data`,
-- and then each of them is reported as injected and given the responses recorded for it.
pub inject_strict :
    (p : Provider) (registry : Dict Bool)
    → (((v : String) → 0 < capable v registry → contains v p.replay_data ≡ true)
        → inject true p registry ≡ ok (inject_all true p registry no_injection))
      × ((i : Injection)
          → inject true p registry ≡ ok i
          → ((v : String) → 0 < capable v registry → contains v p.replay_data ≡ true)
            × IsInjected true p registry i)
unfolding inject lookup
inject_strict p registry =
    let i = inject_all true p registry no_injection in
    let r = inject_all-IsReported true p registry no_injection in
    (
      λ h.
          let nothing = is_empty-count i.report.missing (λ v. ground (arith, r.missed v, h v)) in
          rw nothing,
      λ j e.
          let nothing : is_empty i.report.missing ≡ true = ground (arith, e) in
          (
            λ v c. ground (arith, r.missed v, count-is_empty i.report.missing v nothing),
            subst (IsInjected true p registry) (ok-injective (rw nothing at e)) (record {
              reported = r;
              responses = λ v. ground (arith, inject_all_responses true p registry no_injection v);
            }),
          ),
    )
