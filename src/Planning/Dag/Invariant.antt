-- ===== src/Planning/Dag/Invariant.antt =====
-- The invariant of Kahn's algorithm through one round of `while queue`.
use neuronium.Prelude.{
  ◌+◌, ◌≤◌, ◌<◌, String, ◌≡◌, true, false, List, [], ◌∷◌, ◌++◌, arith, eq_iff, eq_refl, count,
  count_if, count-append, has, count_of_has, Bool-cases, inl, inr, Dict, lookup, insert, get_or,
  contains, lookup-insert, ok, or_raise, or_raise-eq-ok, key_error, >>=-eq-ok, some, ok-injective,
  subst,
}
use neuronium.Prelude.Int.{ℤ, pos, pred, is_zero, is_zero_iff}
use neuronium.Planning.Dag.Defs.{GraphNode, GraphEdge, KahnState, sort_ids, relax, relax_all}
use neuronium.Planning.Dag.Degrees.{open_into, from_to, open_into-append}
use neuronium.Planning.Dag.Sorting.{sort_ids-IsSorting}

module _ (edges : List GraphEdge) (nmap : Dict GraphNode) where
  -- `rest` are the successors of the last placed node that are still to be relaxed.
  pub record Inv (order rest : List String) (st : KahnState) : Type 0 where
    pub degree :
        (v : String)
        → get_or st.in_deg v (pos 0) ≡ pos (count_if (open_into order v) edges + count v rest)
    pub ready :
        (v : String) → 0 < count v st.queue + count v order → get_or st.in_deg v (pos 0) ≡ pos 0
    pub once : (v : String) → count v st.queue + count v order ≤ 1
    pub known : (v : String) → 0 < count v st.queue + count v order → contains v nmap ≡ true
    pub covered :
        (v : String)
        → contains v nmap ≡ true
        → get_or st.in_deg v (pos 0) ≡ pos 0
        → 0 < count v st.queue + count v order

module _ (edges : List GraphEdge) (nmap : Dict GraphNode) (order : List String) (s : String)
    (rest : List String) (st : KahnState) (inv : Inv edges nmap order (s ∷ rest) st) where
  relaxed_degree :
      (d : ℤ)
      → lookup s st.in_deg ≡ some d
      → (v : String)
      → get_or (insert s (pred d) st.in_deg) v (pos 0)
        ≡ pos (count_if (open_into order v) edges + count v rest)
  unfolding pred
  relaxed_degree d found v =
      ground (arith, inv.degree v, eq_iff s v, lookup-insert s v (pred d) st.in_deg)

  -- A node that is queued or placed is not relaxed any more.
  not_queued : count s st.queue + count s order ≡ 0
  not_queued = ground (arith, inv.degree s, inv.ready s, eq_refl s)

  relax_push :
      (d : ℤ) (queue : List String)
      → lookup s st.in_deg ≡ some d
      → is_zero (pred d) ≡ true
      → sort_ids nmap (st.queue ++ s ∷ []) ≡ ok queue
      → Inv edges nmap order rest (record { in_deg = insert s (pred d) st.in_deg; queue = queue })
  relax_push d queue found z sorted =
      let sorting = sort_ids-IsSorting nmap (st.queue ++ s ∷ []) queue sorted in
      record {
        degree = relaxed_degree d found;
        ready = λ v q. ground (
          arith,
          inv.ready v,
          eq_iff s v,
          lookup-insert s v (pred d) st.in_deg,
          is_zero_iff (pred d) z,
          sorting.counts v,
          count-append v st.queue (s ∷ []),
        );
        once = λ v. ground (
          arith,
          sorting.counts v,
          count-append v st.queue (s ∷ []),
          inv.once v,
          not_queued,
          eq_iff s v,
        );
        known = λ v q. ground (
          arith,
          sorting.counts v,
          sorting.known v,
          count-append v st.queue (s ∷ []),
          inv.known v,
        );
        covered = λ v k z'. ground (
          arith,
          sorting.counts v,
          count-append v st.queue (s ∷ []),
          inv.covered v,
          eq_iff s v,
          lookup-insert s v (pred d) st.in_deg,
        );
      }

  relax_keep :
      (d : ℤ)
      → lookup s st.in_deg ≡ some d
      → is_zero (pred d) ≡ false
      → Inv edges nmap order rest
          (record { in_deg = insert s (pred d) st.in_deg; queue = st.queue })
  unfolding is_zero
  relax_keep d found nz = record {
    degree = relaxed_degree d found;
    ready = λ v q.
        ground (arith, inv.ready v, not_queued, eq_iff s v, lookup-insert s v (pred d) st.in_deg);
    once = inv.once;
    known = inv.known;
    covered = λ v k z.
        ground (arith, inv.covered v, eq_iff s v, lookup-insert s v (pred d) st.in_deg, nz);
  }

module _ (edges : List GraphEdge) (nmap : Dict GraphNode) (order : List String) where
  pub relax-Inv :
      (s : String) (rest : List String) (st st' : KahnState)
      → relax nmap s st ≡ ok st'
      → Inv edges nmap order (s ∷ rest) st
      → Inv edges nmap order rest st'
  unfolding relax
  relax-Inv s rest st st' h inv =
      let (d, p, h') = >>=-eq-ok (or_raise (lookup s st.in_deg) key_error) _ h in
      let found = or_raise-eq-ok (lookup s st.in_deg) key_error p in
      elim (Bool-cases (is_zero (pred d))) [
        | inl z ↦
            let (queue, sorted, e) =
              >>=-eq-ok (sort_ids nmap (st.queue ++ s ∷ [])) _ (rw z at h') in
            subst (Inv edges nmap order rest) (ok-injective e)
              (relax_push edges nmap order s rest st inv d queue found z sorted)
        | inr nz ↦
            subst (Inv edges nmap order rest) (ok-injective (rw nz at h'))
              (relax_keep edges nmap order s rest st inv d found nz)
      ]

  pub relax_all-Inv :
      (ss : List String) (st st' : KahnState)
      → relax_all nmap ss st ≡ ok st'
      → Inv edges nmap order ss st
      → Inv edges nmap order [] st'
  unfolding relax_all
  relax_all-Inv [] st st' h inv = subst (Inv edges nmap order []) (ok-injective h) inv
  relax_all-Inv (s ∷ ss) st st' h inv =
      let (mid, p, h') = >>=-eq-ok (relax nmap s st) _ h in
      relax_all-Inv ss mid st' h' (relax-Inv s ss st mid p inv)

-- Popping a queued node and taking its successors up.
pub pop-Inv :
    (edges : List GraphEdge) (nmap : Dict GraphNode) (order succs : List String) (nid : String)
    (deg : Dict ℤ) (queue : List String)
    → ((v : String) → count v succs ≡ count_if (from_to nid v) edges)
    → Inv edges nmap order [] (record { in_deg = deg; queue = nid ∷ queue })
    → Inv edges nmap (order ++ nid ∷ []) succs (record { in_deg = deg; queue = queue })
pop-Inv edges nmap order succs nid deg queue adj inv =
    let fresh : has nid order ≡ false =
      ground (arith, inv.once nid, eq_refl nid, count_of_has nid order) in
    record {
      degree = λ v. ground (arith, inv.degree v, adj v, open_into-append nid v order edges fresh);
      ready = λ v q. ground (arith, inv.ready v, count-append v order (nid ∷ []));
      once = λ v. ground (arith, inv.once v, count-append v order (nid ∷ []));
      known = λ v q. ground (arith, inv.known v, count-append v order (nid ∷ []));
      covered = λ v k z. ground (arith, inv.covered v, count-append v order (nid ∷ []));
    }
