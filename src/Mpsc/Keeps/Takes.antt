-- ===== src/Mpsc/Keeps/Takes.antt =====
-- The end of a pop keeps the invariant: it finds the old tail and the next node, pops the value of the
-- next node, and gives the old tail back.
use formula_one_telemetry_si.Prelude.{
  ℕ, suc, ◌≤◌, ◌<◌, ◌≡◌, ◌≢◌, ◌⊎◌, inl, inr, refl, sym, ap, ◌∙◌, true, false, none, some, [], ◌∷◌,
  ◌++◌, length-append, get_elem?, take-suc, update, update_ne, update_self, ℕ_discrete, arith,
}
use formula_one_telemetry_si.Mpsc.Nodes.{
  Node, lookup, write, lookup-write_self, lookup-write_ne, lookup-write_eq,
}
use formula_one_telemetry_si.Mpsc.{Producer, outside, exchanging, linking, MpscQueue, take_node}
use formula_one_telemetry_si.Mpsc.Inv.{
  Ghost, QueueOk, ProducersOk, ProducerOk, IsLive, node_of, next_of,
}

module _ {T : Type 0} (moved : T → T) (g : Ghost T) (q : MpscQueue T) (producers : ℕ → Producer T)
    (v : QueueOk g q) (ps : ProducersOk g q producers) (less : g.first < g.last)
    (linked : g.linked g.first ≡ true) where
  abbrev next : ℕ
  next = suc g.first

  abbrev pub shrunk : Ghost T
  shrunk = record g {
    first = suc g.first;
    dat = update g.dat (suc g.first) (moved (g.dat (suc g.first)));
  }

  abbrev node : Node T
  node = record (node_of g next) { value = moved (g.dat next) }

  abbrev pub after : MpscQueue T
  after = record q {
    memory = write (write q.memory (g.addr (suc g.first)) (some node)) q.tail none;
    tail = g.addr (suc g.first);
    popped = q.popped ++ g.dat (suc g.first) ∷ [];
  }

  IsLive-next : IsLive g next
  IsLive-next = (omega arith, omega arith)

  IsLive-first : IsLive g g.first
  IsLive-first = (omega arith, omega arith)

  pub take_node-after :
      take_node moved q
        (g.addr (suc g.first))
        (lookup q.memory (g.addr (suc g.first)))
        (lookup q.memory q.tail)
      ≡ after
  unfolding take_node
  take_node-after =
      let old : lookup q.memory q.tail ≡ some (node_of g g.first) =
        ap (lookup q.memory) v.tail_at ∙ v.nodes g.first IsLive-first in
      rw (v.nodes next IsLive-next, old) refl

  -- The old tail is not one of the nodes that stay.
  tail_ne : (k : ℕ) → IsLive shrunk k → q.tail ≢ g.addr k
  tail_ne k l e =
      let same = v.distinct g.first k IsLive-first (omega (arith, l.0), l.1) (sym v.tail_at ∙ e) in
      omega (arith, l.0)

  node_old : (k : ℕ) → next ≢ k → node_of shrunk k ≡ node_of g k
  node_old k ne =
      ap (λ (x : T). record { value = x; next = next_of g k })
        (update_ne g.dat next k (moved (g.dat next)) ne)

  node_next : node_of shrunk next ≡ node
  node_next =
      ap (λ (x : T). record { value = x; next = next_of g next })
        (update_self g.dat next (moved (g.dat next)))

  nodes_after : (k : ℕ) → IsLive shrunk k → lookup after.memory (g.addr k) ≡ some (node_of shrunk k)
  nodes_after k l =
      lookup-write_ne _ q.tail (g.addr k) none (tail_ne k l) ∙ elim (ℕ_discrete next k) [
        | yes here ↦
            ap (λ h. lookup (write q.memory (g.addr next) (some node)) (g.addr h)) (sym here)
            ∙ lookup-write_self q.memory (g.addr next) (some node)
            ∙ ap some (sym node_next ∙ ap (node_of shrunk) here)
        | no other ↦
            let old : IsLive g k = (omega (arith, l.0), l.1) in
            lookup-write_ne q.memory (g.addr next) (g.addr k) (some node)
              (λ e. other (v.distinct next k IsLive-next old e))
            ∙ v.nodes k old
            ∙ ap some (sym (node_old k other))
      ]

  values_after : (k : ℕ) → next ≤ k → k < g.last → get_elem? q.pushed k ≡ some (shrunk.dat (suc k))
  values_after k l m =
      v.values k (omega arith) m ∙ ap some (sym (update_ne g.dat next (suc k) _ (λ e. omega arith)))

  pub shrunk-QueueOk : QueueOk shrunk after
  shrunk-QueueOk = record {
    popped_count = omega (arith, length-append q.popped (g.dat next ∷ []), v.popped_count);
    pushed_count = v.pushed_count;
    first-le = omega arith;
    fifo =
        ap (λ xs. xs ++ g.dat next ∷ []) v.fifo
        ∙ sym (take-suc q.pushed g.first (g.dat next) (v.values g.first (omega arith) less));
    head_at = v.head_at;
    tail_at = refl;
    distinct = λ j k l m. v.distinct j k (omega (arith, l.0), l.1) (omega (arith, m.0), m.1);
    nodes = nodes_after;
    values = values_after;
    unlinked = v.unlinked;
    no_fault = v.no_fault;
  }

  -- A node that is not linked is not the old tail.
  still : (k : ℕ) → g.first ≤ k → g.linked k ≡ false → next ≤ k
  still k l unlinked =
      let ne : g.first ≢ k = λ e. let both = sym linked ∙ ap g.linked e ∙ unlinked in cc in
      omega arith

  each_after : (i : ℕ) (p : Producer T) → ProducerOk g q i p → ProducerOk shrunk after i p
  each_after i outside ok = tt
  each_after i (exchanging n x) (stands, new) = (
    lookup-write_ne _ q.tail n none (λ e. new g.first IsLive-first (sym v.tail_at ∙ e))
        ∙ lookup-write_ne q.memory (g.addr next) n (some node) (new next IsLive-next)
        ∙ stands,
    λ k l. new k (omega (arith, l.0), l.1),
  )
  each_after i (linking b c) (k, l, r, from, to, unlinked, own) =
      (k, still k l unlinked, r, from, to, unlinked, own)

  owned_after :
      (a : ℕ) (stands : Node T)
      → lookup after.memory a ≡ some stands
      → ((k : ℕ) × IsLive shrunk k × (g.addr k ≡ a))
        ⊎ ((j : ℕ) × (x : T) × (producers j ≡ exchanging a x))
  owned_after a stands e =
      elim (lookup-write_eq (write q.memory (g.addr next) (some node)) q.tail a _ _ e) [
        | inl (_, never) ↦ cc
        | inr (other, e') ↦ elim (lookup-write_eq q.memory (g.addr next) a _ _ e') [
          | inl (here, _) ↦ inl (next, (omega arith, omega arith), here)
          | inr (_, old) ↦ elim (ps.owned a stands old) [
            | inl (k, l, here) ↦
                let ne : g.first ≢ k = λ same. other (v.tail_at ∙ ap g.addr same ∙ here) in
                inl (k, (omega (arith, l.0), l.1), here)
            | inr exchanged ↦ inr exchanged
          ]
        ]
      ]

  pub shrunk-ProducersOk : ProducersOk shrunk after producers
  shrunk-ProducersOk = record {
    each = λ i. each_after i (producers i) (ps.each i);
    owners = λ k l m unlinked. ps.owners k (omega arith) m unlinked;
    apart = ps.apart;
    owned = owned_after;
  }
