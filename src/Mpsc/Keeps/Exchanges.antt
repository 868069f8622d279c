-- ===== src/Mpsc/Keeps/Exchanges.antt =====
-- The exchange of `head_` keeps the invariant: the new node becomes the last.
use formula_one_telemetry_si.Prelude.{
  ℕ, suc, ◌≤◌, ◌<◌, ◌≡◌, ◌≢◌, ◌⊎◌, inl, inr, refl, sym, ap, ap₂, ◌∙◌, Bool, false, Option, none,
  some, [], ◌∷◌, ◌++◌, length-append, get_elem?, get_elem?-append_left, get_elem?-append_last,
  take-append_left, update, update_ne, update_self, update-both, update-eq, if◌then◌else◌, dec_lt,
  ℕ_discrete, arith,
}
use mathlib.Core.Path.{subst}
use formula_one_telemetry_si.Mpsc.Nodes.{Node, lookup}
use formula_one_telemetry_si.Mpsc.{
  Producer, Consumer, outside, exchanging, linking, taking, MpscQueue,
}
use formula_one_telemetry_si.Mpsc.Inv.{
  Ghost, QueueOk, ProducersOk, ProducerOk, ConsumerOk, IsLive, next_of, node_of,
}

module _ {T : Type 0} (g : Ghost T) (q : MpscQueue T) (producers : ℕ → Producer T) (i n : ℕ) (x : T)
    (v : QueueOk g q) (ps : ProducersOk g q producers) (at : producers i ≡ exchanging n x) where
  abbrev pub grown : Ghost T
  grown = record g {
    last = suc g.last;
    addr = update g.addr (suc g.last) n;
    dat = update g.dat (suc g.last) x;
    linked = update g.linked (suc g.last) false;
    owner = update g.owner g.last i;
  }

  abbrev pub after : MpscQueue T
  after = record q { head = n; pushed = q.pushed ++ x ∷ [] }

  mine : ProducerOk g q i (exchanging n x)
  mine = subst (ProducerOk g q i) at (ps.each i)

  -- The new node, or an old one.
  IsLive-cases : (k : ℕ) → IsLive grown k → (k ≡ suc g.last) ⊎ IsLive g k
  IsLive-cases k l = elim (dec_lt k (suc g.last)) [
    | yes old ↦ inr (l.0, omega arith)
    | no new ↦ inl (omega (arith, l.1))
  ]

  addr_new : (k : ℕ) → k ≡ suc g.last → grown.addr k ≡ n
  addr_new k e = ap grown.addr e ∙ update_self g.addr (suc g.last) n

  addr_old : (k : ℕ) → k ≤ g.last → grown.addr k ≡ g.addr k
  addr_old k l = update_ne g.addr (suc g.last) k n (λ e. omega arith)

  linked_old : (k : ℕ) → k ≤ g.last → grown.linked k ≡ g.linked k
  linked_old k l = update_ne g.linked (suc g.last) k false (λ e. omega arith)

  next_old : (k : ℕ) → k ≤ g.last → next_of grown k ≡ next_of g k
  next_old k l = elim (dec_lt k g.last) [
    | yes inner ↦
        ap₂ (λ (b : Bool) (a : ℕ). if b then some a else none) (linked_old k l)
          (addr_old (suc k) (omega arith))
    | no outer ↦
        let here : k ≡ g.last = omega arith in
        let open_link = ap g.linked here ∙ v.unlinked in rw (linked_old k l, open_link) refl
  ]

  node_old : (k : ℕ) → k ≤ g.last → node_of grown k ≡ node_of g k
  node_old k l =
      ap₂ (λ (y : T) (o : Option ℕ). record { value = y; next = o })
        (update_ne g.dat (suc g.last) k x (λ e. omega arith)) (next_old k l)

  node_new : node_of grown (suc g.last) ≡ record { value = x; next = none }
  node_new =
      ap₂
        (λ (y : T) (b : Bool). record {
          value = y;
          next = if b then some (grown.addr (suc (suc g.last))) else none;
        })
        (update_self g.dat (suc g.last) x) (update_self g.linked (suc g.last) false)

  nodes_after : (k : ℕ) → IsLive grown k → lookup q.memory (grown.addr k) ≡ some (node_of grown k)
  nodes_after k l = elim (IsLive-cases k l) [
    | inl new ↦
        ap (lookup q.memory) (addr_new k new)
        ∙ mine.0
        ∙ ap some (sym node_new ∙ ap (node_of grown) (sym new))
    | inr old ↦
        ap (lookup q.memory) (addr_old k old.1) ∙ v.nodes k old ∙ ap some (sym (node_old k old.1))
  ]

  distinct_after : (j k : ℕ) → IsLive grown j → IsLive grown k → grown.addr j ≡ grown.addr k → j ≡ k
  distinct_after j k l m e = elim (IsLive-cases j l) [
    | inl new ↦ elim (IsLive-cases k m) [
      | inl new' ↦ new ∙ sym new'
      | inr old' ↦ absurd (mine.1 k old' (sym (addr_old k old'.1) ∙ sym e ∙ addr_new j new))
    ]
    | inr old ↦ elim (IsLive-cases k m) [
      | inl new' ↦ absurd (mine.1 j old (sym (addr_old j old.1) ∙ e ∙ addr_new k new'))
      | inr old' ↦ v.distinct j k old old' (sym (addr_old j old.1) ∙ e ∙ addr_old k old'.1)
    ]
  ]

  values_after :
      (k : ℕ)
      → g.first ≤ k
      → k < suc g.last
      → get_elem? (q.pushed ++ x ∷ []) k ≡ some (grown.dat (suc k))
  values_after k l m = elim (dec_lt k g.last) [
    | yes old ↦
        get_elem?-append_left q.pushed (x ∷ []) k (omega (arith, v.pushed_count))
        ∙ v.values k l old
        ∙ ap some (sym (update_ne g.dat (suc g.last) (suc k) x (λ e. omega arith)))
    | no new ↦
        let here : k ≡ g.last = omega arith in
        get_elem?-append_last q.pushed x k (here ∙ sym v.pushed_count)
        ∙ ap some (sym (ap (λ h. grown.dat (suc h)) here ∙ update_self g.dat (suc g.last) x))
  ]

  pub grown-QueueOk : QueueOk grown after
  grown-QueueOk = record {
    popped_count = v.popped_count;
    pushed_count = omega (arith, length-append q.pushed (x ∷ []), v.pushed_count);
    first-le = omega (arith, v.first-le);
    fifo =
        v.fifo
        ∙ sym (
            take-append_left g.first q.pushed (x ∷ []) (omega (arith, v.first-le, v.pushed_count)));
    head_at = sym (addr_new (suc g.last) refl);
    tail_at = v.tail_at ∙ sym (addr_old g.first v.first-le);
    distinct = distinct_after;
    nodes = nodes_after;
    values = values_after;
    unlinked = update_self g.linked (suc g.last) false;
    no_fault = v.no_fault;
  }

  -- The threads that do not take this turn.
  others :
      (j : ℕ) (p : Producer T)
      → i ≢ j
      → producers j ≡ p
      → ProducerOk g q j p
      → ProducerOk grown after j p
  others j outside ne e ok = tt
  others j (exchanging m w) ne e (stands, new) = (
    stands,
    λ k l. elim (IsLive-cases k l) [
      | inl last ↦ λ same.
          ne (ps.apart i j m x w (at ∙ ap (λ a. exchanging a x) (sym (addr_new k last) ∙ same)) e)
      | inr old ↦ λ same. new k old (sym (addr_old k old.1) ∙ same)
    ],
  )
  others j (linking b c) ne e (k, l, r, from, to, unlinked, own) = (
    k,
    l,
    omega arith,
    from ∙ sym (addr_old k (omega arith)),
    to ∙ sym (addr_old (suc k) (omega arith)),
    linked_old k (omega arith) ∙ unlinked,
    update_ne g.owner g.last k i (λ e'. omega arith) ∙ own,
  )

  abbrev pub threads : ℕ → Producer T
  threads = update producers i (linking q.head n)

  owners_after :
      (k : ℕ)
      → g.first ≤ k
      → k < suc g.last
      → grown.linked k ≡ false
      → threads (grown.owner k) ≡ linking (grown.addr k) (grown.addr (suc k))
  owners_after k l m unlinked = elim (dec_lt k g.last) [
    | yes old ↦
        let own = ps.owners k l old (sym (linked_old k (omega arith)) ∙ unlinked) in
        let other : i ≢ g.owner k = λ e. let both = sym at ∙ ap producers e ∙ own in cc in
        ap threads (update_ne g.owner g.last k i (λ e. omega arith))
        ∙ update_ne producers i (g.owner k) (linking q.head n) other
        ∙ own
        ∙ ap₂ linking (sym (addr_old k (omega arith))) (sym (addr_old (suc k) (omega arith)))
    | no new ↦
        let here : k ≡ g.last = omega arith in
        ap threads (ap grown.owner here ∙ update_self g.owner g.last i)
        ∙ update_self producers i (linking q.head n)
        ∙ ap₂ linking (v.head_at ∙ ap g.addr (sym here) ∙ sym (addr_old k (omega arith)))
            (sym (addr_new (suc k) (ap suc here)))
  ]

  old_exchange : (j m : ℕ) (w : T) → threads j ≡ exchanging m w → producers j ≡ exchanging m w
  old_exchange j m w e = elim (update-eq producers i j (linking q.head n) _ e) [
    | inl (_, p) ↦ cc
    | inr (_, old) ↦ old
  ]

  owned_after :
      (a : ℕ) (node : Node T)
      → lookup q.memory a ≡ some node
      → ((k : ℕ) × IsLive grown k × (grown.addr k ≡ a))
        ⊎ ((j : ℕ) × (w : T) × (threads j ≡ exchanging a w))
  owned_after a node e = elim (ps.owned a node e) [
    | inl (k, l, here) ↦ inl (k, (l.0, omega (arith, l.1)), addr_old k l.1 ∙ here)
    | inr (j, w, stands) ↦ elim (ℕ_discrete i j) [
      | yes same ↦
          let both = sym at ∙ ap producers same ∙ stands in
          inl
            (suc g.last, (omega (arith, v.first-le), omega arith), addr_new (suc g.last) refl ∙ cc)
      | no other ↦ inr (j, w, update_ne producers i j _ other ∙ stands)
    ]
  ]

  pub grown-ProducersOk : ProducersOk grown after threads
  grown-ProducersOk = record {
    each =
        update-both (ProducerOk grown after) producers i (linking q.head n)
          (
            g.last,
            v.first-le,
            omega arith,
            v.head_at ∙ sym (addr_old g.last (omega arith)),
            sym (addr_new (suc g.last) refl),
            linked_old g.last (omega arith) ∙ v.unlinked,
            update_self g.owner g.last i,
          )
          (λ j ne. others j (producers j) ne refl (ps.each j));
    owners = owners_after;
    apart = λ j k m w z e e'. ps.apart j k m w z (old_exchange j m w e) (old_exchange k m z e');
    owned = owned_after;
  }

  pub grown-ConsumerOk : (c : Consumer) → ConsumerOk g c → ConsumerOk grown c
  grown-ConsumerOk outside ok = tt
  grown-ConsumerOk (taking m) (less, to, linked) = (
    omega arith,
    to ∙ sym (addr_old (suc g.first) (omega arith)),
    linked_old g.first (omega arith) ∙ linked,
  )
