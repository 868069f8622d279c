-- ===== src/Tests/Penalties.antt =====
-- The penalties of src/race_control/penalty_enforcer.cpp over a plain list as the queue.
use formula_one_telemetry_si.Prelude.{
  ℕ, ◌<◌, ◌≡◌, ◌↔◌, refl, List, [], ◌∷◌, ◌++◌, arith, some, ltb, if◌then◌else◌,
}
use formula_one_telemetry_si.Prelude.Text.{codes, text_eq, until_nul}
use formula_one_telemetry_si.Floats.Fixed.{Fixed, fixed_floats}
use formula_one_telemetry_si.Types.{PenaltyState, EventType, RaceControlEvent, no_id}
use formula_one_telemetry_si.Season.{index_from}
use formula_one_telemetry_si.Queue.{list_queue}
use formula_one_telemetry_si.Penalty.{
  Slots, PenaltyEnforcer, start, state_at, warnings_at, process_events, handle, warn, exchange,
  driver_index, driver_entered_pits,
}
use formula_one_telemetry_si.Penalty.Machine.{
  Action, event, entered, Move, act, act-Move, start-IsSized,
}
use formula_one_telemetry_si.Penalty.History.{violations, announced, run, run-penalties}
use formula_one_telemetry_si.Penalty.Enforcer.{
  history, process_events_runs, process_events_discards,
}

-- Driver "LEC", index 2, goes off at a lap.
abbrev pub off : ℕ → RaceControlEvent
off lap = record {
  type = EventType.track_limits;
  driver_id = codes "LEC" ++ 0 ∷ [];
  lap = lap;
  message = [];
  timestamp = 0;
}

abbrev rain : RaceControlEvent
rain = record {
  type = EventType.weather_change;
  driver_id = no_id;
  lap = 9;
  message = codes "Weather: DAMP";
  timestamp = 0;
}

abbrev acts : List Action
acts =
    event 10 (off 1)
    ∷ entered (codes "LEC")
    ∷ event 11 (off 2)
    ∷ event 12 (off 3)
    ∷ event 13 rain
    ∷ entered (codes "LEC")
    ∷ event 14 (off 4)
    ∷ []

abbrev after : Slots × List RaceControlEvent
after = run Fixed start acts

served_later : state_at after.0 2 ≡ PenaltyState.serving
unfolding run act handle warn driver_index index_from until_nul driver_entered_pits exchange text_eq
served_later = refl

run-penalties_example :
    (warnings_at after.0 2 ≡ violations Fixed 2 acts)
    × (announced Fixed 2 after.1 ≡ (if ltb (violations Fixed 2 acts) 3 then 0 else 1))
    × ((state_at after.0 2 ≡ PenaltyState.none) ↔ (violations Fixed 2 acts < 3))
run-penalties_example =
    run-penalties Fixed 2 acts (omega arith) (omega arith)
      (refl, (tt, (refl, (refl, (refl, (tt, (refl, tt)))))))

act-Move_example :
    Move
      (entered (codes "LEC"))
      (state_at start 2)
      (state_at (act Fixed start (entered (codes "LEC"))).0 2)
act-Move_example = act-Move Fixed start (entered (codes "LEC")) 2 start-IsSized

abbrev queued : PenaltyEnforcer (List RaceControlEvent)
queued = record { events = off 1 ∷ off 2 ∷ rain ∷ off 3 ∷ []; slots = start }

process_events_runs_example :
    let (s, pushed) = run Fixed start (history (λ k. k) 0 queued.events) in
    (p' : PenaltyEnforcer (List RaceControlEvent)) × (process_events Fixed list_queue 5
        (λ k. k)
        queued
      ≡ some p')
    × (p'.slots ≡ s)
    × (p'.events ≡ pushed)
process_events_runs_example =
    process_events_runs Fixed list_queue 5 (λ k. k) queued queued.events refl (omega arith)

abbrev other_news : PenaltyEnforcer (List RaceControlEvent)
other_news = record {
  events = rain ∷ record rain { type = EventType.penalty_issued } ∷ [];
  slots = start;
}

process_events_discards_example :
    (p' : PenaltyEnforcer (List RaceControlEvent)) × (process_events Fixed list_queue 3
        (λ k. k)
        other_news
      ≡ some p')
    × (p'.slots ≡ start)
    × (p'.events ≡ [])
process_events_discards_example =
    process_events_discards Fixed list_queue 3 (λ k. k) other_news other_news.events refl
      (omega arith) (refl, (refl, tt))
