-- ===== src/Penalty/History.antt =====
-- A whole history of events and pit calls: how many warnings, and how many penalties announced.
use mathlib.Core.Path.{subst₂}
use formula_one_telemetry_si.Prelude.{
  get_or-replicate, ℕ, ◌+◌, ◌^◌, ◌≤◌, ◌<◌, ◌≡◌, ◌↔◌, refl, Option, none, some, List, [], ◌∷◌,
  if◌then◌else◌, ltb, length, arith, All,
}
use native.Mathlib.Nat.{add_assoc}
use formula_one_telemetry_si.Floats.{Floats}
use formula_one_telemetry_si.Types.{PenaltyState, RaceControlEvent, same_state}
use formula_one_telemetry_si.Penalty.{Slots, start, state_at, warnings_at}
use formula_one_telemetry_si.Penalty.Machine.{start-IsSized, Action, event, entered, exited, act}
use formula_one_telemetry_si.Penalty.Tracks.{
  IsArray, violation, count_one, Tracks, keep-Tracks, act-Tracks,
}

module _ (F : Type 0) ⦃f : Floats F⦄ where
  abbrev pub violations : ℕ → List Action → ℕ
  violations j [] = 0
  violations j (a ∷ rest) = violation F j a + violations j rest

  -- The events among those pushed that announce a penalty of the driver `j`.
  abbrev pub announced : ℕ → List RaceControlEvent → ℕ
  announced j [] = 0
  announced j (e ∷ es) = count_one F j (some e) + announced j es

  abbrev pub listed : Option RaceControlEvent → List RaceControlEvent → List RaceControlEvent
  listed none es = es
  listed (some e) es = e ∷ es

  -- The arrays after a history, and the events pushed, in order.
  unfoldable pub run : Slots → List Action → Slots × List RaceControlEvent
  run s [] = (s, [])
  run s (a ∷ rest) =
      let (s', pushed) = act F s a in let (last, es) = run s' rest in (last, listed pushed es)

  announced-listed :
      (j : ℕ) (p : Option RaceControlEvent) (es : List RaceControlEvent)
      → announced j (listed p es) ≡ count_one F j p + announced j es
  announced-listed j none es = omega arith
  announced-listed j (some e) es = refl

  violation-le : (j : ℕ) (a : Action) → violation F j a ≤ 1
  violation-le j (event now e) = ground arith
  violation-le j (entered id) = omega arith
  violation-le j (exited id) = omega arith

  run-Tracks :
      (acts : List Action) (j n k : ℕ) (s : Slots)
      → Tracks F j n k s
      → n + length acts < 2 ^ 32
      → All IsArray acts
      → Tracks F j (n + violations j acts) (k + announced j (run s acts).1) (run s acts).0
  unfolding run
  run-Tracks [] j n k s v small arrays = keep-Tracks F j n k s v
  run-Tracks (a ∷ acts) j n k s v small arrays =
      let s' = (act F s a).0 in
      let p = (act F s a).1 in
      let first = act-Tracks F j n k s a v (omega arith) arrays.0 in
      let rest =
        run-Tracks acts j (n + violation F j a) (k + count_one F j p) s' first
          (omega (arith, violation-le j a)) arrays.1 in
      subst₂ (λ m c. Tracks F j m c (run s' acts).0)
        (add_assoc n (violation F j a) (violations j acts))
        (omega (arith, announced-listed j p (run s' acts).1)) rest

  start-Tracks : (j : ℕ) → j < 20 → Tracks F j 0 0 start
  start-Tracks j l = record {
    sized = start-IsSized;
    counted = get_or-replicate 20 0 j;
    before = λ h. get_or-replicate 20 PenaltyState.none j;
    after = λ h. absurd (omega arith);
    once = refl;
  }

  -- From a new object, after any history shorter than 2 ^ 32 of events and pit calls: a driver's
  -- warnings are the driver's track-limits events, one event that was pushed announces a penalty for
  -- the driver if there were three or more of them and none if there were fewer, and the state is "none" up to then only.
  pub run-penalties :
      (j : ℕ) (acts : List Action)
      → j < 20
      → length acts < 2 ^ 32
      → All IsArray acts
      → let (s, pushed) = run start acts in
        (warnings_at s j ≡ violations j acts)
        × (announced j pushed ≡ (if ltb (violations j acts) 3 then 0 else 1))
        × ((state_at s j ≡ PenaltyState.none) ↔ (violations j acts < 3))
  unfolding same_state
  run-penalties j acts l small arrays =
      let v = run-Tracks acts j 0 0 start (start-Tracks j l) (omega arith) arrays in
      (
        omega (arith, v.counted),
        ground (arith, v.once),
        (λ h. ground (arith, v.after), λ h. v.before (omega arith)),
      )
