-- ===== src/Mpsc/Keeps/Turns.antt =====
-- Every turn keeps the invariant, so a run does.
use formula_one_telemetry_si.Prelude.{
  ℕ, ◌<◌, ◌≡◌, inl, inr, refl, sym, ap, ap₂, ◌∙◌, true, false, Bool-cases, Option, none, some, List,
  [], ◌∷◌, update, update_same, dec_lt, arith,
}
use mathlib.Core.Path.{subst}
use formula_one_telemetry_si.Mpsc.Nodes.{Node, lookup, lookup-write_self, lookup-write_eq}
use formula_one_telemetry_si.Mpsc.{
  Producer, Consumer, outside, exchanging, linking, taking, MpscQueue, System, allocate, produce,
  consume, examine, Turn, producer, consumer, step, run, start, continue,
}
use formula_one_telemetry_si.Mpsc.Inv.{
  Inv, Ghost, QueueOk, ProducersOk, ProducerOk, ConsumerOk, node_of, next_of,
}
use formula_one_telemetry_si.Mpsc.Keeps.Allocates.{fresh-QueueOk, fresh-ProducersOk}
use formula_one_telemetry_si.Mpsc.Keeps.Exchanges.{
  grown-QueueOk, grown-ProducersOk, grown-ConsumerOk,
}
use formula_one_telemetry_si.Mpsc.Keeps.Links.{
  link-after, joined-QueueOk, joined-ProducersOk, joined-ConsumerOk,
}
use formula_one_telemetry_si.Mpsc.Keeps.Takes.{take_node-after, shrunk-QueueOk, shrunk-ProducersOk}

module _ {T : Type 0} where
  -- The system after a producer's turn.
  abbrev placed : System T → ℕ → MpscQueue T × Producer T → System T
  placed s i (q, p) = record s { queue = q; producers = update s.producers i p }

  allocate-Inv :
      (s : System T) (i a : ℕ) (x : T) (c : Option (Node T))
      → Inv s
      → s.producers i ≡ outside
      → lookup s.queue.memory a ≡ c
      → Inv (placed s i (allocate s.queue a x c))
  unfolding allocate
  allocate-Inv s i a x none v at free = record {
    ghost = v.ghost;
    queue_ok = fresh-QueueOk v.ghost s.queue s.producers i a x v.queue_ok v.producers_ok free at;
    producers_ok =
        fresh-ProducersOk v.ghost s.queue s.producers i a x v.queue_ok v.producers_ok free at;
    consumer_ok = v.consumer_ok;
  }
  allocate-Inv s i a x (some _) v at used = record {
    ghost = v.ghost;
    queue_ok = v.queue_ok;
    producers_ok =
        subst (ProducersOk v.ghost s.queue) (sym (update_same s.producers i outside at))
          v.producers_ok;
    consumer_ok = v.consumer_ok;
  }

  produce-Inv :
      (s : System T) (i a : ℕ) (x : T) (p : Producer T)
      → Inv s
      → s.producers i ≡ p
      → Inv (placed s i (produce s.queue a x p))
  unfolding produce
  produce-Inv s i a x outside v at = allocate-Inv s i a x (lookup s.queue.memory a) v at refl
  produce-Inv s i a x (exchanging n y) v at = record {
    ghost = _;
    queue_ok = grown-QueueOk v.ghost s.queue s.producers i n y v.queue_ok v.producers_ok at;
    producers_ok = grown-ProducersOk v.ghost s.queue s.producers i n y v.queue_ok v.producers_ok at;
    consumer_ok =
        grown-ConsumerOk v.ghost s.queue s.producers i n y v.queue_ok v.producers_ok at s.consumer
          v.consumer_ok;
  }
  produce-Inv s i a x (linking b c) v at =
      let (k, low, high, from, to, unlinked, own) =
        subst (ProducerOk v.ghost s.queue i) at (v.producers_ok.each i) in
      let at' = at ∙ ap₂ linking from to in
      let g = v.ghost in
      let q = s.queue in
      let ok = v.queue_ok in
      let ps = v.producers_ok in
      let done = link-after g q s.producers i k ok ps low high unlinked own at' in
      rw (from, to, done)
        (record {
          ghost = _;
          queue_ok = joined-QueueOk g q s.producers i k ok ps low high unlinked own at';
          producers_ok = joined-ProducersOk g q s.producers i k ok ps low high unlinked own at';
          consumer_ok =
              joined-ConsumerOk g q s.producers i k ok ps low high unlinked own at' s.consumer
                v.consumer_ok;
        })

  -- A node with a next one is not the last.
  pub linked-lt :
      (g : Ghost T) (q : MpscQueue T) → QueueOk g q → g.linked g.first ≡ true → g.first < g.last
  linked-lt g q v linked = elim (dec_lt g.first g.last) [
    | yes less ↦ less
    | no never ↦
        let here : g.first ≡ g.last = omega (arith, v.first-le) in
        let both = sym linked ∙ ap g.linked here ∙ v.unlinked in cc
  ]

  continue-ConsumerOk :
      (g : Ghost T) (q : MpscQueue T) → QueueOk g q → ConsumerOk g (continue (next_of g g.first))
  continue-ConsumerOk g q v = elim (Bool-cases (g.linked g.first)) [
    | inl linked ↦ rw linked (linked-lt g q v linked, refl, linked)
    | inr unlinked ↦ rw unlinked tt
  ]

  -- What stands at the tail.
  pub tail-node_of :
      (g : Ghost T) (q : MpscQueue T)
      → QueueOk g q
      → lookup q.memory q.tail ≡ some (node_of g g.first)
  tail-node_of g q v = ap (lookup q.memory) v.tail_at ∙ v.nodes g.first (omega arith, v.first-le)

module _ {T : Type 0} (moved : T → T) where
  abbrev advanced : System T → MpscQueue T × Consumer → System T
  advanced s (q, c) = record s { queue = q; consumer = c }

  consume-Inv :
      (s : System T) (c : Consumer)
      → Inv s
      → s.consumer ≡ c
      → Inv (advanced s (consume moved s.queue c))
  unfolding consume examine
  consume-Inv s outside v at =
      rw (tail-node_of v.ghost s.queue v.queue_ok, examine)
        (record {
          ghost = v.ghost;
          queue_ok = v.queue_ok;
          producers_ok = v.producers_ok;
          consumer_ok = continue-ConsumerOk v.ghost s.queue v.queue_ok;
        })
  consume-Inv s (taking n) v at =
      let (less, to, linked) = subst (ConsumerOk v.ghost) at v.consumer_ok in
      let g = v.ghost in
      let q = s.queue in
      let ok = v.queue_ok in
      let ps = v.producers_ok in
      rw (to, take_node-after moved g q s.producers ok ps less linked)
        (record {
          ghost = _;
          queue_ok = shrunk-QueueOk moved g q s.producers ok ps less linked;
          producers_ok = shrunk-ProducersOk moved g q s.producers ok ps less linked;
          consumer_ok = tt;
        })

  pub step-Inv : (s : System T) (t : Turn T) → Inv s → Inv (step moved s t)
  step-Inv s (producer i a x) v = produce-Inv s i a x (s.producers i) v refl
  step-Inv s consumer v = consume-Inv s s.consumer v refl

  pub run-Inv : (s : System T) (ts : List (Turn T)) → Inv s → Inv (run moved s ts)
  unfolding run
  run-Inv s [] v = v
  run-Inv s (t ∷ ts) v = run-Inv (step moved s t) ts (step-Inv s t v)

module _ {T : Type 0} where
  pub start-Inv : (blank : T) (sentinel : ℕ) → Inv (start blank sentinel)
  unfolding lookup
  start-Inv blank sentinel = record {
    ghost = record {
      first = 0;
      last = 0;
      addr = λ _. sentinel;
      dat = λ _. blank;
      linked = λ _. false;
      owner = λ _. 0;
    };
    queue_ok = record {
      popped_count = refl;
      pushed_count = refl;
      first-le = omega arith;
      fifo = refl;
      head_at = refl;
      tail_at = refl;
      distinct = λ j k l m e. omega (arith, l.1, m.1);
      nodes = λ k l. lookup-write_self [] sentinel _;
      values = λ k l m. absurd (omega (arith, m));
      unlinked = refl;
      no_fault = refl;
    };
    producers_ok = record {
      each = λ i. tt;
      owners = λ k l m e. absurd (omega (arith, m));
      apart = λ i j n v w e e'. cc;
      owned = λ a node e. elim (lookup-write_eq [] sentinel a _ _ e) [
        | inl (here, _) ↦ inl (0, (omega arith, omega arith), here)
        | inr (_, never) ↦ cc
      ];
    };
    consumer_ok = tt;
  }
