-- ===== src/Mpsc/Safety.antt =====
-- What holds whatever the interleaving: order, no use of a deleted node, and when a pop gives up.
use formula_one_telemetry_si.Prelude.{
  ℕ, suc, ◌≡◌, ◌⊎◌, ◌↔◌, inl, inr, refl, sym, ap, ◌∙◌, Bool, true, false, Bool-cases, none, some,
  List, ◌++◌, length, drop, take-append-drop, if◌then◌else◌, dec_lt, arith,
}
use mathlib.Core.Path.{subst}
use formula_one_telemetry_si.Mpsc.{
  outside, linking, System, Turn, run, start, consume, examine, empty, continue, is_null, null_test,
}
use formula_one_telemetry_si.Mpsc.Inv.{Inv, QueueOk, ProducerOk, next_of}
use formula_one_telemetry_si.Mpsc.Keeps.Turns.{run-Inv, start-Inv, tail-node_of}

module _ {T : Type 0} where
  -- Nothing waits, or the push of what waits next is between its exchange and its store.
  abbrev pub NothingToTake : System T → Type 0
  NothingToTake s =
      (length s.popped ≡ length s.pushed)
      ⊎ ((i : ℕ) × (n : ℕ) × (s.producers i ≡ linking s.queue.tail n))

  -- The sentinel's link is open exactly where there is nothing to take.
  pub unlinked-NothingToTake :
      (s : System T) (v : Inv s) → (v.ghost.linked v.ghost.first ≡ false) ↔ NothingToTake s
  unlinked-NothingToTake s v = (there, back)
    where
      ok : QueueOk v.ghost s.queue
      ok = v.queue_ok

      there : v.ghost.linked v.ghost.first ≡ false → NothingToTake s
      there unlinked = elim (dec_lt v.ghost.first v.ghost.last) [
        | yes less ↦
            let owner = v.producers_ok.owners v.ghost.first (omega arith) less unlinked in
            inr (
              _,
              _,
              owner ∙ ap (λ a. linking a (v.ghost.addr (suc v.ghost.first))) (sym ok.tail_at),
            )
        | no never ↦ inl (omega (arith, ok.popped_count, ok.pushed_count, ok.first-le))
      ]

      back : NothingToTake s → v.ghost.linked v.ghost.first ≡ false
      back (inl level) =
          let here : v.ghost.first ≡ v.ghost.last =
            omega (arith, ok.popped_count, ok.pushed_count, level) in
          ap v.ghost.linked here ∙ ok.unlinked
      back (inr (i, n, at)) =
          let (k, low, high, from, _, unlinked, _) =
            subst (ProducerOk v.ghost s.queue i) at (v.producers_ok.each i) in
          let here =
            ok.distinct v.ghost.first k (omega arith, ok.first-le) (low, omega arith)
              (sym ok.tail_at ∙ from) in
          ap v.ghost.linked here ∙ unlinked

  -- The load of `tail_->next`, and what follows from it in `pop` and `empty`.
  pub consume-outside :
      (moved : T → T) (s : System T) (v : Inv s)
      → (consume moved s.queue outside).1 ≡ continue (next_of v.ghost v.ghost.first)
  unfolding consume examine
  consume-outside moved s v = rw (tail-node_of v.ghost s.queue v.queue_ok, examine) refl

  empty-is_null :
      (s : System T) (v : Inv s) → empty s.queue ≡ some (is_null (next_of v.ghost v.ghost.first))
  unfolding empty
  empty-is_null s v = ap null_test (tail-node_of v.ghost s.queue v.queue_ok)

-- A state that some interleaving reaches from a new queue.
abbrev pub IsReachable : {T : Type 0} → (T → T) → System T → Type 0
IsReachable {T} moved s =
    (blank : T) × (sentinel : ℕ) × (ts : List (Turn T)) × (run moved (start blank sentinel) ts ≡ s)

module _ {T : Type 0} (moved : T → T) where
  pub reached-Inv : (s : System T) → IsReachable moved s → Inv s
  reached-Inv s (blank, sentinel, ts, e) =
      subst Inv e (run-Inv moved (start blank sentinel) ts (start-Inv blank sentinel))

  -- In a reachable state the values popped are the first of those pushed, in the order in which the
  -- pushes exchanged the head, none lost and none twice, and no thread has used an address where no
  -- node stands.
  pub popped_fifo :
      (s : System T)
      → IsReachable moved s
      → ((waiting : List T) × (s.pushed ≡ s.popped ++ waiting)) × (s.fault ≡ false)
  popped_fifo s r =
      let v = reached-Inv s r in
      let k = v.ghost.first in
      (
        (
          drop k s.pushed,
          sym (take-append-drop k s.pushed)
              ∙ ap (λ (l : List T). l ++ drop k s.pushed) (sym v.queue_ok.fifo),
        ),
        v.queue_ok.no_fault,
      )

  -- In a reachable state a pop that begins gives up exactly when there is nothing to take, that is
  -- when no value waits or a push stands between its exchange and its store to the sentinel; `empty`
  -- returns then, and only then, `true`, and otherwise `false`.
  pub gives_up_iff :
      (s : System T)
      → IsReachable moved s
      → (((consume moved s.queue outside).1 ≡ outside) ↔ NothingToTake s)
        × ((empty s.queue ≡ some true) ↔ NothingToTake s)
        × ((empty s.queue ≡ some true) ⊎ (empty s.queue ≡ some false))
  gives_up_iff s r =
      let v = reached-Inv s r in
      let link_test = λ (b : Bool). if b then some (v.ghost.addr (suc v.ghost.first)) else none in
      let iff = unlinked-NothingToTake s v in
      elim (Bool-cases (v.ghost.linked v.ghost.first)) [
        | inl linked ↦
            let busy : ¬ NothingToTake s = λ h. let both = sym linked ∙ iff.1 h in cc in
            let load = consume-outside moved s v ∙ ap (λ b. continue (link_test b)) linked in
            let test = empty-is_null s v ∙ ap (λ b. some (is_null (link_test b))) linked in
            (((λ e. cc), (λ h. absurd (busy h))), ((λ e. cc), (λ h. absurd (busy h))), inr test)
        | inr unlinked ↦
            let load = consume-outside moved s v ∙ ap (λ b. continue (link_test b)) unlinked in
            let test = empty-is_null s v ∙ ap (λ b. some (is_null (link_test b))) unlinked in
            let idle = iff.0 unlinked in
            (((λ e. idle), (λ h. load)), ((λ e. idle), (λ h. test)), inl test)
      ]
