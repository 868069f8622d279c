-- ===== src/Mpsc/Keeps/Links.antt =====
-- The store to `prev_head->next` keeps the invariant, and finds a node to write to.
use formula_one_telemetry_si.Prelude.{
  ℕ, suc, ◌≤◌, ◌<◌, ◌≡◌, ◌≢◌, ◌⊎◌, inl, inr, refl, sym, ap, ◌∙◌, Bool, true, false, none, some,
  update, update_ne, update_self, update-both, update-eq, if◌then◌else◌, ℕ_discrete, arith,
}
use formula_one_telemetry_si.Mpsc.Nodes.{
  Node, lookup, write, lookup-write_self, lookup-write_ne, lookup-write_eq,
}
use formula_one_telemetry_si.Mpsc.{
  Producer, Consumer, outside, exchanging, linking, taking, MpscQueue, link,
}
use formula_one_telemetry_si.Mpsc.Inv.{
  Ghost, QueueOk, ProducersOk, ProducerOk, ConsumerOk, IsLive, node_of,
}

-- The producer `i` links the node `k`.
module _ {T : Type 0} (g : Ghost T) (q : MpscQueue T) (producers : ℕ → Producer T) (i k : ℕ)
    (v : QueueOk g q) (ps : ProducersOk g q producers) (low : g.first ≤ k) (high : k < g.last)
    (open_link : g.linked k ≡ false) (own : g.owner k ≡ i)
    (at : producers i ≡ linking (g.addr k) (g.addr (suc k))) where
  abbrev pub joined : Ghost T
  joined = record g { linked = update g.linked k true }

  abbrev node : Node T
  node = record (node_of g k) { next = some (g.addr (suc k)) }

  abbrev pub after : MpscQueue T
  after = record q { memory = write q.memory (g.addr k) (some node) }

  pub link-after : link q (g.addr k) (g.addr (suc k)) (lookup q.memory (g.addr k)) ≡ after
  unfolding link
  link-after = rw (v.nodes k (low, omega arith)) refl

  node-joined : node_of joined k ≡ node
  node-joined =
      ap
        (λ (b : Bool). record { value = g.dat k; next = if b then some (g.addr (suc k)) else none })
        (update_self g.linked k true)

  node_other : (j : ℕ) → k ≢ j → node_of joined j ≡ node_of g j
  node_other j ne =
      ap
        (λ (b : Bool). record { value = g.dat j; next = if b then some (g.addr (suc j)) else none })
        (update_ne g.linked k j true ne)

  addr-ne : (j : ℕ) → IsLive g j → k ≢ j → g.addr k ≢ g.addr j
  addr-ne j l ne e = ne (v.distinct k j (low, omega arith) l e)

  nodes_after : (j : ℕ) → IsLive g j → lookup after.memory (g.addr j) ≡ some (node_of joined j)
  nodes_after j l = elim (ℕ_discrete k j) [
    | yes here ↦
        ap (λ h. lookup after.memory (g.addr h)) (sym here)
        ∙ lookup-write_self q.memory (g.addr k) (some node)
        ∙ ap some (sym node-joined ∙ ap (node_of joined) here)
    | no other ↦
        lookup-write_ne q.memory (g.addr k) (g.addr j) _ (addr-ne j l other)
        ∙ v.nodes j l
        ∙ ap some (sym (node_other j other))
  ]

  pub joined-QueueOk : QueueOk joined after
  joined-QueueOk = record {
    popped_count = v.popped_count;
    pushed_count = v.pushed_count;
    first-le = v.first-le;
    fifo = v.fifo;
    head_at = v.head_at;
    tail_at = v.tail_at;
    distinct = v.distinct;
    nodes = nodes_after;
    values = v.values;
    unlinked = update_ne g.linked k g.last true (λ e. omega arith) ∙ v.unlinked;
    no_fault = v.no_fault;
  }

  abbrev pub threads : ℕ → Producer T
  threads = update producers i outside

  others : (j : ℕ) (p : Producer T) → i ≢ j → ProducerOk g q j p → ProducerOk joined after j p
  others j outside ne ok = tt
  others j (exchanging m w) ne (stands, new) =
      (lookup-write_ne q.memory (g.addr k) m _ (new k (low, omega arith)) ∙ stands, new)
  others j (linking b c) ne (h, l, r, from, to, unlinked, own') = (
    h,
    l,
    r,
    from,
    to,
    update_ne g.linked k h true (λ e. ne (sym own ∙ ap g.owner e ∙ own')) ∙ unlinked,
    own',
  )

  owners_after :
      (j : ℕ)
      → g.first ≤ j
      → j < g.last
      → joined.linked j ≡ false
      → threads (g.owner j) ≡ linking (g.addr j) (g.addr (suc j))
  owners_after j l m unlinked = elim (update-eq g.linked k j true false unlinked) [
    | inl (_, never) ↦ cc
    | inr (other, still) ↦
        let own' = ps.owners j l m still in
        let apart : i ≢ g.owner j =
          λ e. let both = sym at ∙ ap producers e ∙ own' in addr-ne j (l, omega arith) other (cc) in
        update_ne producers i (g.owner j) outside apart ∙ own'
  ]

  old_exchange : (j m : ℕ) (w : T) → threads j ≡ exchanging m w → producers j ≡ exchanging m w
  old_exchange j m w e = elim (update-eq producers i j outside _ e) [
    | inl (_, p) ↦ cc
    | inr (_, old) ↦ old
  ]

  owned_after :
      (a : ℕ) (some_node : Node T)
      → lookup after.memory a ≡ some some_node
      → ((j : ℕ) × IsLive g j × (g.addr j ≡ a)) ⊎ ((j : ℕ) × (w : T) × (threads j ≡ exchanging a w))
  owned_after a some_node e = elim (lookup-write_eq q.memory (g.addr k) a _ _ e) [
    | inl (here, _) ↦ inl (k, (low, omega arith), here)
    | inr (_, old) ↦ elim (ps.owned a some_node old) [
      | inl live ↦ inl live
      | inr (j, w, stands) ↦
          let other : i ≢ j = λ e'. let both = sym at ∙ ap producers e' ∙ stands in cc in
          inr (j, w, update_ne producers i j outside other ∙ stands)
    ]
  ]

  pub joined-ProducersOk : ProducersOk joined after threads
  joined-ProducersOk = record {
    each =
        update-both (ProducerOk joined after) producers i outside tt
          (λ j ne. others j (producers j) ne (ps.each j));
    owners = owners_after;
    apart = λ j h m w z e e'. ps.apart j h m w z (old_exchange j m w e) (old_exchange h m z e');
    owned = owned_after;
  }

  pub joined-ConsumerOk : (c : Consumer) → ConsumerOk g c → ConsumerOk joined c
  joined-ConsumerOk outside ok = tt
  joined-ConsumerOk (taking m) (less, to, linked) = (
    less,
    to,
    update_ne g.linked k g.first true (λ e. let both = sym open_link ∙ ap g.linked e ∙ linked in cc)
        ∙ linked,
  )
