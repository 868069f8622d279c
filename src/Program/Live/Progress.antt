-- ===== src/Program/Live/Progress.antt =====
-- The callback never throws and its loop ends, whenever it is called during the race.
use formula_one_telemetry_si.Prelude.{
  ℕ, suc, ◌≤◌, ◌<◌, ◌≡◌, ◌⊎◌, inl, inr, refl, sym, ap, Bool-cases, ◌∙◌, Option, none, some, List,
  [], ◌∷◌, ◌++◌, append-nil, length, dec_lt, arith, All, All-append,
}
use mathlib.Core.Path.{subst}
use formula_one_telemetry_si.Floats.{Floats}
use formula_one_telemetry_si.Types.{DriverState, RaceControlEvent}
use formula_one_telemetry_si.Queue.{FifoQueue, drain_short}
use formula_one_telemetry_si.Penalty
use formula_one_telemetry_si.Penalty.{Slots, process_events}
use formula_one_telemetry_si.Penalty.Machine.{Action, act}
use formula_one_telemetry_si.Penalty.History
use formula_one_telemetry_si.Penalty.Enforcer.{history}
use formula_one_telemetry_si.TrackLimits.{World}
use formula_one_telemetry_si.Program.{
  Job, check_limits, update_weather, Entry, Program, on_tick, sorted_by_position,
}
use formula_one_telemetry_si.Program.Ticks.{on_tick_returns, update_claims}
use formula_one_telemetry_si.Program.Live.Reports.{
  limits_of, events_in, IsEvent, history-IsEvent, limits_of-run, order-append, order-history,
  Holds-check, Announced-update,
}
use formula_one_telemetry_si.Program.Live.{
  reported, job_reports, entry_reports, Live, events_of, entry_at, weather_of, run_job, end_job,
  run_entry, Step, Reachable, new_live, with_race,
}

module _ {F Q W : Type 0} ⦃f : Floats F⦄ (world : World F W) (queue : FifoQueue Q RaceControlEvent)
    (tid : ℕ) where
  open queue use {Holds, push-Holds}

  -- `log` is what the checks have pushed so far.
  record Sound (log : List RaceControlEvent) (s : Live F Q W) : Type 0 where
    waiting : List RaceControlEvent
    held : Holds (events_of s) waiting
    writer : (s.program.leaderboard.writer_id ≡ none) ⊎ (s.program.leaderboard.writer_id ≡ some tid)
    acts : List Action
    only_events : All IsEvent acts
    handled : s.program.penalty.slots ≡ (History.run F Penalty.start acts).0
    order : limits_of (events_in acts ++ waiting) ≡ limits_of log

  run-append :
      (a b : List Action) (s : Slots)
      → (History.run F s (a ++ b)).0 ≡ (History.run F (History.run F s a).0 b).0
  unfolding History.run
  run-append [] b s = refl
  run-append (x ∷ a) b s = run-append a b (act F s x).0

  run_job-Sound :
      (log : List RaceControlEvent) (coin : F) (now : ℕ) (j : Job F) (s : Live F Q W)
      → Sound log s
      → Sound (log ++ job_reports world queue j s) (run_job world queue coin now j s)
  unfolding run_job limits_of
  run_job-Sound log coin now (check_limits states lap) s v =
      let es = reported world queue lap states s.limits in
      record {
        waiting = v.waiting ++ es;
        held = Holds-check world queue lap states (events_of s) v.waiting s.limits v.held;
        writer = v.writer;
        acts = v.acts;
        only_events = v.only_events;
        handled = v.handled;
        order = order-append v.acts v.waiting log es es v.order refl;
      }
  run_job-Sound log coin now (update_weather lap) s v =
      let (es, held, other) =
        Announced-update world queue coin now lap (weather_of world queue s) v.waiting v.held in
      record {
        waiting = v.waiting ++ es;
        held = held;
        writer = v.writer;
        acts = v.acts;
        only_events = v.only_events;
        handled = v.handled;
        order = order-append v.acts v.waiting log es [] v.order other;
      }

  end_job-Sound :
      (log : List RaceControlEvent) (k : ℕ) (s : Live F Q W) → Sound log s → Sound log (end_job k s)
  end_job-Sound log k s v = record {
    waiting = v.waiting;
    held = v.held;
    writer = v.writer;
    acts = v.acts;
    only_events = v.only_events;
    handled = v.handled;
    order = v.order;
  }

  run_entry-Sound :
      (log : List RaceControlEvent) (coin : F) (now k : ℕ) (o : Option (Entry F)) (s : Live F Q W)
      → Sound log s
      → Sound (log ++ entry_reports world queue o s) (run_entry world queue coin now k o s)
  run_entry-Sound log coin now k none s v = subst (λ l. Sound l s) (sym (append-nil log)) v
  run_entry-Sound log coin now k (some e) s v = elim (Bool-cases e.ready) [
    | inl over ↦ rw over (subst (λ l. Sound l s) (sym (append-nil log)) v)
    | inr going ↦ rw going (end_job-Sound _ k _ (run_job-Sound log coin now e.job s v))
  ]

  -- A callback on more fuel than events wait.
  abbrev Returns :
      List RaceControlEvent → ℕ → (ℕ → ℕ) → ℕ → List (DriverState F) → Live F Q W → Type 0
  Returns log fuel clock race_lap states s =
      (p : Program F Q) × (on_tick queue fuel clock tid race_lap states s.program ≡ some p)
      × (p.leaderboard.standings ≡ sorted_by_position states)
      × Sound (log ++ []) (record s { program = p })

  Sound-Returns :
      (log : List RaceControlEvent) (fuel : ℕ) (clock : ℕ → ℕ) (race_lap : ℕ)
      (states : List (DriverState F)) (s : Live F Q W) (v : Sound log s)
      → length v.waiting < fuel
      → Returns log fuel clock race_lap states s
  Sound-Returns log fuel clock race_lap states s v enough =
      let (p, done, board, _, _, slots, held) =
        on_tick_returns queue fuel clock tid race_lap states s.program v.waiting v.writer v.held
          enough in
      (
        p,
        done,
        ap (λ b. b.standings) board,
        record {
          waiting = (History.run F s.program.penalty.slots (history clock 0 v.waiting)).1;
          held = held;
          writer = inr (ap (λ b. b.writer_id) board);
          acts = v.acts ++ history clock 0 v.waiting;
          only_events =
              All-append IsEvent v.acts (history clock 0 v.waiting) v.only_events
                (history-IsEvent clock 0 v.waiting);
          handled =
              slots
              ∙ ap (λ z. (History.run F z (history clock 0 v.waiting)).0) v.handled
              ∙ sym (run-append v.acts (history clock 0 v.waiting) Penalty.start);
          order =
              order-history v.acts clock v.waiting log
                (History.run F s.program.penalty.slots (history clock 0 v.waiting)).1 v.order
                (limits_of-run F clock 0 v.waiting s.program.penalty.slots);
        },
      )

  -- Without enough fuel a callback does not come to its end.
  on_tick_short :
      (log : List RaceControlEvent) (fuel : ℕ) (clock : ℕ → ℕ) (race_lap : ℕ)
      (states : List (DriverState F)) (s : Live F Q W) (v : Sound log s)
      → fuel ≤ length v.waiting
      → on_tick queue fuel clock tid race_lap states s.program ≡ none
  unfolding on_tick process_events
  on_tick_short log fuel clock race_lap states s v short =
      let out = drain_short queue fuel (events_of s) v.waiting v.held short in
      let claimed = update_claims s.program.leaderboard tid (sorted_by_position states) v.writer in
      rw (claimed, on_tick, out, process_events) refl

  Sound-Step :
      {s t : Live F Q W} {es : List RaceControlEvent} (log : List RaceControlEvent)
      → Step world queue tid s es t
      → Sound log s
      → Sound (log ++ es) t
  Sound-Step {s} log (Step.job k coin now) v =
      run_entry-Sound log coin now k (entry_at s.program.flights.jobs k) s v
  Sound-Step {s} log (Step.callback fuel clock race_lap states p done) v =
      elim (dec_lt (length v.waiting) fuel) [
        | yes enough ↦
            let (p', done', _, v') = Sound-Returns log fuel clock race_lap states s v enough in
            let same : p' ≡ p = let both = sym done' ∙ done in cc in
            subst (λ z. Sound (log ++ []) (record s { program = z })) same v'
        | no short ↦
            let never = on_tick_short log fuel clock race_lap states s v (omega arith) in
            let both = sym never ∙ done in cc
      ]
  Sound-Step {s} log (Step.race r) v =
      subst (λ l. Sound l (with_race r s)) (sym (append-nil log))
        (record {
          waiting = v.waiting;
          held = v.held;
          writer = v.writer;
          acts = v.acts;
          only_events = v.only_events;
          handled = v.handled;
          order = v.order;
        })

  new_live-Sound : (q : Q) (w : W) → Holds q [] → Sound [] (new_live q w)
  unfolding History.run
  new_live-Sound q w h = record {
    waiting = [];
    held = h;
    writer = inl refl;
    acts = [];
    only_events = tt;
    handled = refl;
    order = refl;
  }

  Reachable-Sound :
      {first s : Live F Q W} {log : List RaceControlEvent}
      → Reachable world queue tid first log s
      → Sound [] first
      → Sound log s
  Reachable-Sound Reachable.begins v = v
  Reachable-Sound {s = s} (Reachable.goes_on r step all) v =
      subst (λ l. Sound l s) (sym all) (Sound-Step _ step (Reachable-Sound r v))

  -- In any state that callbacks of the generator's thread, jobs of the pool and writes of the race state
  -- by other threads reach, in any order, from the program as it begins with an empty queue: on enough
  -- fuel the next callback returns, without an exception, and publishes the states by position. The
  -- penalties and warnings are those that a history of events alone, with no pit call, leaves, and the
  -- track-limits events of that history and then those that wait in the queue are the track-limits
  -- events that the checks have pushed, in order, each once.
  pub callback_returns :
      (q : Q) (w : W) (s : Live F Q W) (log : List RaceControlEvent) (clock : ℕ → ℕ) (race_lap : ℕ)
      (states : List (DriverState F))
      → Holds q []
      → Reachable world queue tid (new_live q w) log s
      → ((fuel : ℕ) × (p : Program F Q) × (on_tick queue fuel clock tid race_lap states s.program
            ≡ some p)
          × (p.leaderboard.standings ≡ sorted_by_position states))
        × ((acts : List Action) × (waiting : List RaceControlEvent) × (s.program.penalty.slots
              ≡ (History.run F Penalty.start acts).0)
            × All IsEvent acts
            × Holds (events_of s) waiting
            × (limits_of (events_in acts ++ waiting) ≡ limits_of log))
  callback_returns q w s log clock race_lap states h r =
      let v = Reachable-Sound r (new_live-Sound q w h) in
      let fuel = suc (length v.waiting) in
      let (p, done, board, _) = Sound-Returns log fuel clock race_lap states s v (omega arith) in
      ((fuel, p, done, board), (v.acts, v.waiting, v.handled, v.only_events, v.held, v.order))
