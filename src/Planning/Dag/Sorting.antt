-- ===== src/Planning/Dag/Sorting.antt =====
-- `sort_ids` reorders ids that are all nodes of the graph, and raises KeyError for any other.
use neuronium.Prelude.{
  ◌<◌, String, ◌≡◌, refl, Bool, true, some, List, [], ◌∷◌, arith, str_eq, eq_iff, length, count,
  count_if, sort_by, count_if-sort_by, Dict, lookup, contains, ok, >>=-eq-ok, or_raise,
  or_raise-eq-ok, key_error, Option-cases, inl, inr, eq_refl,
}
use neuronium.Planning.Dag.Defs.{GraphNode, Key, key_le, with_keys, names, sort_ids}

named : String → Key → Bool
named v (p, s) = str_eq s v

count-names : (v : String) (ks : List Key) → count v (names ks) ≡ count_if (named v) ks
unfolding named
count-names v [] = refl
count-names v ((p, s) ∷ ks) = omega (arith, count-names v ks)

length-names : (ks : List Key) → length (names ks) ≡ count_if (λ _. true) ks
length-names [] = refl
length-names ((p, s) ∷ ks) = omega (arith, length-names ks)

record Looked (nmap : Dict GraphNode) (x : String) (xs : List String) (ks : List Key) : Type 0 where
  node : GraphNode
  rest : List Key
  found : lookup x nmap ≡ some node
  looked : with_keys nmap xs ≡ ok rest
  whole : ks ≡ (node.priority, x) ∷ rest

with_keys-cons :
    (nmap : Dict GraphNode) (x : String) (xs : List String) (ks : List Key)
    → with_keys nmap (x ∷ xs) ≡ ok ks
    → Looked nmap x xs ks
unfolding with_keys
with_keys-cons nmap x xs ks h =
    let (n, p, h') = >>=-eq-ok (or_raise (lookup x nmap) key_error) _ h in
    let (rest, q, h'') = >>=-eq-ok (with_keys nmap xs) _ h' in
    record {
      node = n;
      rest = rest;
      found = or_raise-eq-ok (lookup x nmap) key_error p;
      looked = q;
      whole = ground arith;
    }

names-with_keys :
    (nmap : Dict GraphNode) (xs : List String) (ks : List Key)
    → with_keys nmap xs ≡ ok ks
    → names ks ≡ xs
names-with_keys nmap [] ks h = unfold with_keys in ground arith
names-with_keys nmap (x ∷ xs) ks h =
    let c = with_keys-cons nmap x xs ks h in
    ground (arith, names-with_keys nmap xs c.rest c.looked, c.whole)

with_keys-known :
    (nmap : Dict GraphNode) (v : String) (xs : List String) (ks : List Key)
    → with_keys nmap xs ≡ ok ks
    → 0 < count v xs
    → contains v nmap ≡ true
with_keys-known nmap v [] ks h c = ground arith
with_keys-known nmap v (x ∷ xs) ks h c =
    let l = with_keys-cons nmap x xs ks h in
    ground (arith, with_keys-known nmap v xs l.rest l.looked, eq_iff x v, l.found)

pub record IsSorting (nmap : Dict GraphNode) (xs ys : List String) : Type 0 where
  pub counts : (v : String) → count v ys ≡ count v xs
  pub size : length ys ≡ length xs
  pub known : (v : String) → 0 < count v xs → contains v nmap ≡ true

-- What `sorted(xs, key=…)` and `xs.sort(key=…)` return.
pub sort_ids-IsSorting :
    (nmap : Dict GraphNode) (xs ys : List String) → sort_ids nmap xs ≡ ok ys → IsSorting nmap xs ys
unfolding sort_ids
sort_ids-IsSorting nmap xs ys h =
    let (ks, p, q) = >>=-eq-ok (with_keys nmap xs) (λ ks. ok (names (sort_by key_le ks))) h in
    let same = names-with_keys nmap xs ks p in
    let whole : ys ≡ names (sort_by key_le ks) = cc in
    record {
      counts = λ v. ground (
        arith,
        whole,
        count-names v (sort_by key_le ks),
        count-names v ks,
        count_if-sort_by (named v) key_le ks,
      );
      size = ground (
        arith,
        whole,
        length-names (sort_by key_le ks),
        length-names ks,
        count_if-sort_by (λ (k : Key). true) key_le ks,
      );
      known = λ v. with_keys-known nmap v xs ks p;
    }

-- Sorting succeeds on nodes of the graph.
with_keys-total :
    (nmap : Dict GraphNode) (xs : List String)
    → ((v : String) → 0 < count v xs → contains v nmap ≡ true)
    → (ks : List Key) × (with_keys nmap xs ≡ ok ks)
unfolding with_keys
with_keys-total nmap [] h = ([], refl)
with_keys-total nmap (x ∷ xs) h = elim (Option-cases (lookup x nmap)) [
  | inl e ↦ absurd (ground (arith, h x, eq_refl x))
  | inr (n, e) ↦
      let (ks, p) = with_keys-total nmap xs (λ v c. h v (omega arith)) in
      ((n.priority, x) ∷ ks, simp (e, p))
]

pub sort_ids-total :
    (nmap : Dict GraphNode) (xs : List String)
    → ((v : String) → 0 < count v xs → contains v nmap ≡ true)
    → (ys : List String) × (sort_ids nmap xs ≡ ok ys)
unfolding sort_ids
sort_ids-total nmap xs h =
    let (ks, p) = with_keys-total nmap xs h in (names (sort_by key_le ks), rw p)
