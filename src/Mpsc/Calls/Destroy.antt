-- ===== src/Mpsc/Calls/Destroy.antt =====
-- The destructor, after the last call of any thread.
use formula_one_telemetry_si.Prelude.{
  ℕ, zero, suc, ◌<◌, ◌≡◌, ◌≢◌, inl, inr, refl, sym, ap, ◌∙◌, Option, none, some, List, [], ◌∷◌,
  length, length-append, ℕ_discrete, ◌-◌, Option-cases, arith,
}
use formula_one_telemetry_si.Mpsc.Nodes.{Memory, lookup, write, lookup-write_self, lookup-write_ne}
use formula_one_telemetry_si.Mpsc.{outside, System}
use formula_one_telemetry_si.Mpsc.Calls.{Holds, pop}
use formula_one_telemetry_si.Mpsc.Calls.Pops.{pop-nil, pop-cons, between_calls}
use formula_one_telemetry_si.Mpsc.Safety.{IsReachable}

module _ {T : Type 0} (moved : T → T) where
  -- `while (pop(ignored)) {}`; `none` is out of fuel.
  unfoldable pub discard : ℕ → System T → Option (System T)
  discard zero s = none
  discard (suc n) s = elim (pop moved s) [ none ↦ some s | some (_, s') ↦ discard n s' ]

  -- The destructor: what is left of the memory.
  unfoldable pub destroy : ℕ → System T → Option (Memory T)
  destroy n s = elim (discard n s) [ none ↦ none | some s' ↦ some (write s'.memory s'.tail none) ]

  discard_all :
      (n : ℕ) (s : System T) (xs : List T)
      → Holds s xs
      → length xs < n
      → (s' : System T) × (discard n s ≡ some s') × Holds s' []
  unfolding discard
  discard_all zero s xs h l = elim l [ ]
  discard_all (suc n) s [] h l = (s, rw (pop-nil moved s h, discard) refl, h)
  discard_all (suc n) s (x ∷ xs) h l =
      let (s', popped, h') = pop-cons moved s x xs h in
      let (s'', done, h'') = discard_all n s' xs h' (omega arith) in
      (s'', rw (popped, discard) done, h'')

  -- Where nothing waits, the sentinel is the only node that stands.
  only_sentinel :
      (s : System T) (a : ℕ) → Holds s [] → a ≢ s.queue.tail → lookup s.queue.memory a ≡ none
  only_sentinel s a h ne = elim (Option-cases (lookup s.queue.memory a)) [
    | inl free ↦ free
    | inr (node, stands) ↦ elim (h.inv.producers_ok.owned a node stands) [
      | inl (k, live, here) ↦
          let ok = h.inv.queue_ok in
          let first : k ≡ h.inv.ghost.first = omega (
            arith,
            live.0,
            live.1,
            ok.popped_count,
            ok.pushed_count,
            ap length h.waiting,
            length-append s.popped [],
          ) in
          absurd (ne (sym here ∙ ap h.inv.ghost.addr first ∙ sym ok.tail_at))
      | inr (i, x, at) ↦ let both = sym at ∙ h.producers_outside i in cc
    ]
  ]

  -- From a reachable state in which every thread stands outside its call, on more fuel than values
  -- wait, the destructor ends and leaves no node in the memory.
  pub destroy-frees_all :
      (n : ℕ) (s : System T)
      → IsReachable moved s
      → ((i : ℕ) → s.producers i ≡ outside)
      → s.consumer ≡ outside
      → length s.pushed - length s.popped < n
      → (m : Memory T) × (destroy n s ≡ some m) × ((a : ℕ) → lookup m a ≡ none)
  unfolding destroy
  destroy-frees_all n s r idle at fuel =
      let (xs, h) = between_calls moved s r idle at in
      let few : length xs < n = omega (arith, ap length h.waiting, length-append s.popped xs) in
      let (s', done, h') = discard_all n s xs h few in
      (
        write s'.memory s'.tail none,
        rw (done, destroy) refl,
        λ a. elim (ℕ_discrete s'.queue.tail a) [
          | yes here ↦ rw (← here) (lookup-write_self s'.queue.memory s'.queue.tail none)
          | no other ↦
              lookup-write_ne s'.queue.memory s'.queue.tail a none other
              ∙ only_sentinel s' a h' (λ e. other (sym e))
        ],
      )
