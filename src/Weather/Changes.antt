-- ===== src/Weather/Changes.antt =====
-- Any sequence of updates: the weather goes round its cycle, no oftener than every five laps, and the
-- events in the queue tell of each change and of nothing else.
use mathlib.Core.Path.{subst}
use formula_one_telemetry_si.Prelude.{
  ℕ, ◌+◌, ◌≤◌, ◌≡◌, refl, sym, true, false, List, [], ◌∷◌, ◌++◌, ltb, length, if◌then◌else◌, arith,
  Bool-cases, inl, inr, append-nil, append_assoc,
}
use formula_one_telemetry_si.Prelude.Text.{Text, codes}
use formula_one_telemetry_si.Floats.{Floats}
use formula_one_telemetry_si.Types.{WeatherState, EventType, RaceControlEvent}
use formula_one_telemetry_si.Queue.{FifoQueue}
use formula_one_telemetry_si.Weather.{
  WeatherSystem, next_state, name, weather_event, no_change, change, update,
}

-- The changes of the weather, each with the message that tells of it.
pub data Turns : WeatherState → WeatherState → Text → Type 0 where
  dampens : Turns WeatherState.dry WeatherState.damp (codes "Weather: DAMP")
  soaks : Turns WeatherState.damp WeatherState.wet (codes "Weather: WET")
  dries : Turns WeatherState.wet WeatherState.dry (codes "Weather: DRY")

-- The events that announce the changes from the state `s`, the last update at the lap `last`, to the
-- state `t`: each tells of one change, five laps or more after the one before.
abbrev pub Announces : WeatherState → ℕ → List RaceControlEvent → WeatherState → Type 0
Announces s last [] t = s ≡ t
Announces s last (e ∷ es) t =
    (next : WeatherState) × Turns s next e.message
    × (last + 5 ≤ e.lap)
    × (e.type ≡ EventType.weather_change)
    × Announces next e.lap es t

turn_of : (s : WeatherState) → Turns s (next_state s) (codes "Weather: " ++ name (next_state s))
turn_of WeatherState.dry = dampens
turn_of WeatherState.damp = soaks
turn_of WeatherState.wet = dries

earlier :
    (s t : WeatherState) (l m : ℕ) (es : List RaceControlEvent)
    → l ≤ m
    → Announces s m es t
    → Announces s l es t
earlier s t l m [] h a = a
earlier s t l m (e ∷ es) h (next, turns, late, kind, rest) =
    (next, turns, omega (arith, late), kind, rest)

-- One call of `update`: the draw, the clock and the lap.
pub record Call (F : Type 0) : Type 0 where
  pub coin : F
  pub now : ℕ
  pub lap : ℕ

-- How many calls come five laps or more after the last that did, with a draw of 0.15 at most.
abbrev pub changes : {F : Type 0} ⦃f : Floats F⦄ → ℕ → List (Call F) → ℕ
changes last [] = 0
changes ⦃f⦄ last (c ∷ cs) =
    if ltb c.lap (last + 5)
    then changes last cs
    else (if f.lt (f.ratio 15 100) c.coin then 0 else 1) + changes c.lap cs

module _ {F : Type 0} ⦃f : Floats F⦄ {Q : Type 0} (queue : FifoQueue Q RaceControlEvent) where
  open queue use {Holds, push-Holds}

  unfoldable pub updates : List (Call F) → WeatherSystem Q → WeatherSystem Q
  updates [] w = w
  updates (c ∷ cs) w = updates cs (update queue c.coin c.now c.lap w)

  update_soon :
      (c : Call F) (w : WeatherSystem Q)
      → ltb c.lap (w.last_update_lap + 5) ≡ true
      → update queue c.coin c.now c.lap w ≡ w
  unfolding update
  update_soon c w soon = rw soon refl

  update_same :
      (c : Call F) (w : WeatherSystem Q)
      → ltb c.lap (w.last_update_lap + 5) ≡ false
      → no_change c.coin ≡ true
      → update queue c.coin c.now c.lap w ≡ record w { last_update_lap = c.lap }
  unfolding update
  update_same c w due same = rw (due, same) refl

  update_new :
      (c : Call F) (w : WeatherSystem Q)
      → ltb c.lap (w.last_update_lap + 5) ≡ false
      → no_change c.coin ≡ false
      → update queue c.coin c.now c.lap w
        ≡ change queue c.now c.lap (record w { last_update_lap = c.lap })
  unfolding update
  update_new c w due new = rw (due, new) refl

  -- After any calls of `update`, the queue holds what it held before and then events that announce,
  -- in order, the changes from the old state to the new one: each is one from dry to damp, from damp
  -- to wet or from wet to dry, its message names the new state as DAMP, WET or DRY, and it comes five
  -- laps or more after the change before and after the old `last_update_lap`. There are as many events
  -- as calls that come five laps or more after the last such call, with a draw of 0.15 at most.
  pub updates-Announces :
      (cs : List (Call F)) (w : WeatherSystem Q) (xs : List RaceControlEvent)
      → Holds w.events xs
      → (es : List RaceControlEvent) × Holds (updates cs w).events (xs ++ es)
        × Announces w.state w.last_update_lap es (updates cs w).state
        × (length es ≡ changes w.last_update_lap cs)
  unfolding updates
  updates-Announces [] w xs h = ([], subst (Holds w.events) (sym (append-nil xs)) h, refl, refl)
  updates-Announces (c ∷ cs) w xs h = elim (Bool-cases (ltb c.lap (w.last_update_lap + 5))) [
    | inl soon ↦ rw (update_soon c w soon, updates, soon) (updates-Announces cs w xs h)
    | inr due ↦ elim (Bool-cases (no_change c.coin)) [
      | inl same ↦
          let (es, held, told, count) =
            updates-Announces cs (record w { last_update_lap = c.lap }) xs h in
          rw (update_same c w due same, updates, due, same)
            (
              es,
              held,
              earlier w.state _ w.last_update_lap c.lap es (ground arith) told,
              omega (arith, count),
            )
      | inr new ↦
          let w' = change queue c.now c.lap (record w { last_update_lap = c.lap }) in
          let e = weather_event c.now c.lap (next_state w.state) in
          let (es, held, told, count) =
            updates-Announces cs w' (xs ++ e ∷ []) (push-Holds w.events xs e h) in
          rw (update_new c w due new, updates, due, new)
            (
              e ∷ es,
              subst (Holds (updates cs w').events) (append_assoc xs (e ∷ []) es) held,
              (next_state w.state, turn_of w.state, ground arith, refl, told),
              omega (arith, count),
            )
    ]
  ]
