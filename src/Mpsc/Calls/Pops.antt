-- ===== src/Mpsc/Calls/Pops.antt =====
-- A pop between calls, and the contract that the calls fill.
use formula_one_telemetry_si.Prelude.{
  ℕ, suc, ◌<◌, ◌≡◌, inl, inr, refl, sym, ap, ◌∙◌, Bool, true, false, Bool-cases, none, some, List,
  [], ◌∷◌, ◌++◌, append_assoc, length, length-append, get_elem?, get_elem?-append_mid,
  if◌then◌else◌, arith,
}
use mathlib.Core.Path.{subst}
use formula_one_telemetry_si.Queue.{FifoQueue, Call, replies, replies-list_queue, list_queue}
use formula_one_telemetry_si.Mpsc.Nodes.{Memory, lookup}
use formula_one_telemetry_si.Mpsc.{
  Consumer, outside, taking, System, consumer, step, consume, examine, continue,
}
use formula_one_telemetry_si.Mpsc.Inv.{Inv, Ghost}
use formula_one_telemetry_si.Mpsc.Keeps.Turns.{step-Inv, tail-node_of, linked-lt}
use formula_one_telemetry_si.Mpsc.Keeps.Takes.{take_node-after}
use formula_one_telemetry_si.Mpsc.Calls.{Holds, push, pop, taken, finish, push-Holds}
use formula_one_telemetry_si.Mpsc.Safety.{IsReachable, reached-Inv, popped_fifo}

module _ {T : Type 0} (moved : T → T) where
  abbrev with_consumer : System T → Consumer → System T
  with_consumer s c = record s { consumer = c }

  abbrev next_test : Ghost T → Bool → Consumer
  next_test g b = continue (if b then some (g.addr (suc g.first)) else none)

  loaded :
      (s : System T) (v : Inv s) (b : Bool)
      → s.consumer ≡ outside
      → v.ghost.linked v.ghost.first ≡ b
      → step moved s consumer ≡ with_consumer s (next_test v.ghost b)
  unfolding consume examine
  loaded s v b at test = rw (at, tail-node_of v.ghost s.queue v.queue_ok, examine, test) refl

  pub pop-nil : (s : System T) → Holds s [] → pop moved s ≡ none
  unfolding pop
  pop-nil s h =
      let v = h.inv in
      let level : v.ghost.first ≡ v.ghost.last = omega (
        arith,
        v.queue_ok.popped_count,
        v.queue_ok.pushed_count,
        ap length h.waiting,
        length-append s.popped [],
      ) in
      let unlinked = ap v.ghost.linked level ∙ v.queue_ok.unlinked in
      ap (λ (z : System T). taken moved z z.consumer) (loaded s v false h.consumer_outside unlinked)

  -- With every thread outside its call, what waits is linked.
  linked_first :
      (s : System T) (x : T) (xs : List T) (h : Holds s (x ∷ xs))
      → h.inv.ghost.linked h.inv.ghost.first ≡ true
  linked_first s x xs h =
      let g = h.inv.ghost in
      let ok = h.inv.queue_ok in
      let less : g.first < g.last = omega (
        arith,
        ok.popped_count,
        ok.pushed_count,
        ap length h.waiting,
        length-append s.popped (x ∷ xs),
      ) in
      elim (Bool-cases (g.linked g.first)) [
        | inl linked ↦ linked
        | inr unlinked ↦
            let owner = h.inv.producers_ok.owners g.first (omega arith) less unlinked in
            let idle = h.producers_outside (g.owner g.first) in let both = sym owner ∙ idle in cc
      ]

  oldest :
      (s : System T) (x : T) (xs : List T) (h : Holds s (x ∷ xs))
      → h.inv.ghost.dat (suc h.inv.ghost.first) ≡ x
  oldest s x xs h =
      let g = h.inv.ghost in
      let ok = h.inv.queue_ok in
      let less = linked-lt g s.queue ok (linked_first s x xs h) in
      let there = ok.values g.first (omega arith) less in
      let here =
        ap (get_elem? s.pushed) (sym ok.popped_count)
        ∙ ap (λ l. get_elem? l (length s.popped)) h.waiting
        ∙ get_elem?-append_mid s.popped x xs in
      let both = sym there ∙ here in cc

  -- The rest of the pop takes the oldest value.
  finished :
      (s : System T) (x : T) (xs : List T) (h : Holds s (x ∷ xs))
      → Holds (step moved (with_consumer s (next_test h.inv.ghost true)) consumer) xs
  unfolding consume
  finished s x xs h =
      let v = h.inv in
      let linked = linked_first s x xs h in
      let less = linked-lt v.ghost s.queue v.queue_ok linked in
      let load = loaded s v true h.consumer_outside linked in
      let done =
        take_node-after moved v.ghost s.queue s.producers v.queue_ok v.producers_ok less linked in
      let ok = subst Inv load (step-Inv moved s consumer v) in
      record {
        inv = step-Inv moved (with_consumer s (next_test v.ghost true)) consumer ok;
        producers_outside = h.producers_outside;
        consumer_outside = refl;
        waiting = rw done (
            h.waiting
            ∙ sym (append_assoc s.popped (x ∷ []) xs)
            ∙ ap (λ (y : T). (s.popped ++ y ∷ []) ++ xs) (sym (oldest s x xs h)));
      }

  pub pop-cons :
      (s : System T) (x : T) (xs : List T)
      → Holds s (x ∷ xs)
      → (s' : System T) × (pop moved s ≡ some (x, s')) × Holds s' xs
  unfolding pop
  pop-cons s x xs h =
      let v = h.inv in
      let g = v.ghost in
      let ok = v.queue_ok in
      let linked = linked_first s x xs h in
      let less = linked-lt g s.queue ok linked in
      let load = loaded s v true h.consumer_outside linked in
      let s1 = with_consumer s (taking (g.addr (suc g.first))) in
      let node = ok.nodes (suc g.first) (omega arith, omega arith) in
      (
        step moved s1 consumer,
        ap (λ (z : System T). taken moved z z.consumer) load
            ∙ ap (finish moved s1) node
            ∙ ap (λ (y : T). some (y, step moved s1 consumer)) (oldest s x xs h),
        finished s x xs h,
      )

-- The calls of a thread and of the consumer, with an allocator that returns free addresses only.
abbrev pub mpsc_queue :
    {T : Type 0}
    → (T → T)
    → (malloc : Memory T → ℕ) → ((m : Memory T) → lookup m (malloc m) ≡ none)
    → ℕ
    → FifoQueue (System T) T
mpsc_queue moved malloc fresh thread = record {
  push = push moved malloc thread;
  pop = pop moved;
  Holds = Holds;
  push-Holds = push-Holds moved malloc thread fresh;
  pop-nil = pop-nil moved;
  pop-cons = pop-cons moved;
}

module _ {T : Type 0} (moved : T → T) where
  pub between_calls :
      (s : System T)
      → IsReachable moved s
      → ((i : ℕ) → s.producers i ≡ outside)
      → s.consumer ≡ outside
      → (xs : List T) × Holds s xs
  between_calls s r idle at =
      let ((xs, waiting), _) = popped_fifo moved s r in
      (
        xs,
        record {
          inv = reached-Inv moved s r;
          producers_outside = idle;
          consumer_outside = at;
          waiting = waiting;
        },
      )

  -- From a reachable state in which every thread stands outside its call and `xs` waits, with an
  -- allocator that returns free addresses only, calls of `push` and `pop` that do not overlap return
  -- what they return from the list `xs` to which `push` appends and from whose front `pop` takes.
  pub calls_refine :
      (malloc : Memory T → ℕ) (fresh : (m : Memory T) → lookup m (malloc m) ≡ none) (thread : ℕ)
      (s : System T) (xs : List T) (cs : List (Call T))
      → IsReachable moved s
      → ((i : ℕ) → s.producers i ≡ outside)
      → s.consumer ≡ outside
      → s.pushed ≡ s.popped ++ xs
      → replies (mpsc_queue moved malloc fresh thread) s cs ≡ replies list_queue xs cs
  calls_refine malloc fresh thread s xs cs r idle at waiting =
      replies-list_queue (mpsc_queue moved malloc fresh thread) s xs cs (record {
        inv = reached-Inv moved s r;
        producers_outside = idle;
        consumer_outside = at;
        waiting = waiting;
      })
