-- ===== src/Mpsc/Progress.antt =====
-- A value that waits can be popped, with the help of one producer at most.
use formula_one_telemetry_si.Prelude.{
  ℕ, suc, ◌≤◌, ◌<◌, ◌≡◌, ◌⊎◌, inl, inr, refl, true, false, Bool-cases, List, [], ◌∷◌, length, take,
  update, update_self, arith,
}
use formula_one_telemetry_si.Mpsc.{
  outside, linking, System, Turn, producer, consumer, run, consume, examine, produce,
}
use formula_one_telemetry_si.Mpsc.Inv.{Inv}
use formula_one_telemetry_si.Mpsc.Keeps.Turns.{tail-node_of, linked-lt}
use formula_one_telemetry_si.Mpsc.Keeps.Links
use formula_one_telemetry_si.Mpsc.Keeps.Takes.{take_node-after, shrunk-QueueOk}
use formula_one_telemetry_si.Mpsc.Safety.{IsReachable, reached-Inv}

module _ {T : Type 0} (moved : T → T) where
  -- The turns are a whole pop, perhaps after others, and take the oldest value that waits.
  abbrev pub Pops : System T → List (Turn T) → Type 0
  Pops s ts =
      ((run moved s ts).popped ≡ take (suc (length s.popped)) s.pushed)
      × ((run moved s ts).consumer ≡ outside)

  Pops-linked :
      (s : System T) (v : Inv s)
      → s.consumer ≡ outside
      → v.ghost.linked v.ghost.first ≡ true
      → Pops s (consumer ∷ consumer ∷ [])
  unfolding run consume examine
  Pops-linked s v at linked =
      let ok = v.queue_ok in
      let less = linked-lt v.ghost s.queue ok linked in
      rw
        (
          at,
          tail-node_of v.ghost s.queue ok,
          examine,
          linked,
          take_node-after moved v.ghost s.queue s.producers ok v.producers_ok less linked,
          ok.popped_count,
        )
        (
          (shrunk-QueueOk moved v.ghost s.queue s.producers ok v.producers_ok less linked).fifo,
          refl,
        )

  Pops-unlinked :
      (s : System T) (v : Inv s) (a : ℕ) (x : T)
      → s.consumer ≡ outside
      → v.ghost.first < v.ghost.last
      → v.ghost.linked v.ghost.first ≡ false
      → Pops s (producer (v.ghost.owner v.ghost.first) a x ∷ consumer ∷ consumer ∷ [])
  unfolding run produce
  Pops-unlinked s v a x at less unlinked =
      let g = v.ghost in
      let q = s.queue in
      let ok = v.queue_ok in
      let ps = v.producers_ok in
      let i = g.owner g.first in
      let low : g.first ≤ g.first = omega arith in
      let links = ps.owners g.first low less unlinked in
      let helped : System T = record s {
        queue = Links.after g q s.producers i g.first ok ps low less unlinked refl links;
        producers = update s.producers i outside;
      } in
      let helped_ok : Inv helped = record {
        ghost = Links.joined g q s.producers i g.first ok ps low less unlinked refl links;
        queue_ok =
            Links.joined-QueueOk g q s.producers i g.first ok ps low less unlinked refl links;
        producers_ok =
            Links.joined-ProducersOk g q s.producers i g.first ok ps low less unlinked refl links;
        consumer_ok =
            Links.joined-ConsumerOk g q s.producers i g.first ok ps low less unlinked refl links
              s.consumer v.consumer_ok;
      } in
      rw (links, Links.link-after g q s.producers i g.first ok ps low less unlinked refl links)
        (Pops-linked helped helped_ok at (update_self g.linked g.first true))

  -- In a reachable state where the consumer stands outside `pop` and a value waits: either two turns of
  -- the consumer, which are one whole `pop`, pop the oldest value that waits; or there is a producer
  -- that has exchanged the head and not yet linked its node, and one turn of this producer and then
  -- these two of the consumer do.
  pub oldest_popped :
      (s : System T) (a : ℕ) (x : T)
      → IsReachable moved s
      → s.consumer ≡ outside
      → length s.popped < length s.pushed
      → Pops s (consumer ∷ consumer ∷ [])
        ⊎ ((i prev node : ℕ) × (s.producers i ≡ linking prev node)
            × Pops s (producer i a x ∷ consumer ∷ consumer ∷ []))
  oldest_popped s a x r at waits =
      let v = reached-Inv moved s r in
      let less : v.ghost.first < v.ghost.last =
        omega (arith, v.queue_ok.popped_count, v.queue_ok.pushed_count) in
      elim (Bool-cases (v.ghost.linked v.ghost.first)) [
        | inl linked ↦ inl (Pops-linked s v at linked)
        | inr unlinked ↦
            let low : v.ghost.first ≤ v.ghost.first = omega arith in
            inr (
              v.ghost.owner v.ghost.first,
              _,
              _,
              v.producers_ok.owners v.ghost.first low less unlinked,
              Pops-unlinked s v a x at less unlinked,
            )
      ]
