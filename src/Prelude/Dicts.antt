-- ===== src/Prelude/Dicts.antt =====
-- Python's `dict` with string keys, in insertion order: a write to a key that is there keeps its
-- place, and a write to a new key goes to the end.
use Prim.Native.Nat.{◌+◌, ◌≤◌}
use Prim.Native.String.{String}
use mathlib.Core.Path.{◌≡◌, refl}
use mathlib.Core.Bool.{Bool}
use mathlib.Core.Option.{Option, none, some}
use mathlib.Core.List.{List, [], ◌∷◌}
use native.Mathlib.Omega.{arith}
use text.Mathlib.Text.{◌==◌ as str_eq}
use text.Mathlib.TextEquality.{eq_iff}
use text.Mathlib.TextPositions.{eq_refl}
use neuronium.Prelude.Tests.{if◌then◌else◌, is_some, or_else, ltb}
use neuronium.Prelude.Lists.{count}

abbrev pub Dict {ℓ} : Type ℓ → Type ℓ
Dict V = List (String × V)

module _ {ℓ} {V : Type ℓ} where
  -- `d.get(k)`
  unfoldable pub lookup : String → Dict V → Option V
  lookup k [] = none
  lookup k ((j, v) ∷ d) = if str_eq j k then some v else lookup k d

  -- `d[k] = v`
  unfoldable pub insert : String → V → Dict V → Dict V
  insert k v [] = (k, v) ∷ []
  insert k v ((j, w) ∷ d) = if str_eq j k then (j, v) ∷ d else (j, w) ∷ insert k v d

  -- `del d[k]`, for a key that is there
  unfoldable pub delete : String → Dict V → Dict V
  delete k [] = []
  delete k ((j, w) ∷ d) = if str_eq j k then d else (j, w) ∷ delete k d

  -- `d.update(e)`
  unfoldable pub update : Dict V → Dict V → Dict V
  update d [] = d
  update d ((k, v) ∷ e) = update (insert k v d) e

  -- `list(d)`
  abbrev pub keys : Dict V → List String
  keys [] = []
  keys ((k, v) ∷ d) = k ∷ keys d

  -- `k in d`
  abbrev pub contains : String → Dict V → Bool
  contains k d = is_some (lookup k d)

  -- `d.get(k, v)`
  abbrev pub get_or : Dict V → String → V → V
  get_or d k v = or_else (lookup k d) v

module _ {ℓ} {V : Type ℓ} where
  -- `d.setdefault(k, v)`
  unfoldable pub set_default : String → V → Dict V → Dict V
  set_default k v d = if contains k d then d else insert k v d

  pub lookup-insert :
      (k j : String) (v : V) (d : Dict V)
      → lookup j (insert k v d) ≡ (if str_eq k j then some v else lookup j d)
  unfolding lookup insert
  lookup-insert k j v [] = refl
  lookup-insert k j v ((i, w) ∷ d) =
      ground (arith, eq_iff k j, eq_iff i k, eq_iff i j, lookup-insert k j v d)

module _ {ℓ} {V : Type ℓ} where
  pub lookup-insert_self : (k : String) (v : V) (d : Dict V) → lookup k (insert k v d) ≡ some v
  lookup-insert_self k v d = simp (lookup-insert, eq_refl)

  pub lookup-set_default :
      (k j : String) (v : V) (d : Dict V)
      → lookup j (set_default k v d)
        ≡ (if str_eq k j then some (or_else (lookup j d) v) else lookup j d)
  unfolding set_default
  lookup-set_default k j v d = ground (arith, eq_iff k j, lookup-insert k j v d)

-- A fresh key is counted once more, a known one as before.
pub count-keys-insert {ℓ} :
    {V : Type ℓ} (k j : String) (v : V) (d : Dict V)
    → count j (keys (insert k v d))
      ≡ count j (keys d) + (if contains k d then 0 else if str_eq k j then 1 else 0)
unfolding insert lookup
count-keys-insert k j v [] = ground arith
count-keys-insert k j v ((i, w) ∷ d) =
    ground (arith, eq_iff i k, eq_iff k j, eq_iff i j, count-keys-insert k j v d)

pub contains-count-keys {ℓ} :
    {V : Type ℓ} (k : String) (d : Dict V) → contains k d ≡ ltb 0 (count k (keys d))
unfolding lookup
contains-count-keys k [] = ground arith
contains-count-keys k ((i, w) ∷ d) = ground (arith, contains-count-keys k d)

-- Every key stands once.
abbrev pub KeysOnce {ℓ} : {V : Type ℓ} → Dict V → Type 0
KeysOnce d = (j : String) → count j (keys d) ≤ 1

pub insert-KeysOnce {ℓ} :
    {V : Type ℓ} (k : String) (v : V) (d : Dict V) → KeysOnce d → KeysOnce (insert k v d)
insert-KeysOnce k v d h j =
    ground (arith, count-keys-insert k j v d, contains-count-keys k d, eq_iff k j, h j)
