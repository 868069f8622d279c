-- ===== src/Tests/Races.antt =====
-- The generator of src/simulation/telemetry_generator.cpp, on whole millionths.
use formula_one_telemetry_si.Prelude.{
  ℕ, suc, ◌-◌, ◌≤◌, ◌≡◌, ◌↔◌, refl, List, [], ◌∷◌, length, arith, true, false, All, map, ◌<◌, ◌⊎◌,
  ◌≢◌, some, inr, get_elem?,
}
use formula_one_telemetry_si.Prelude.Int.{pos}
use formula_one_telemetry_si.Floats.Fixed.{Fixed, fixed_floats, Fixed-IsOrdered}
use formula_one_telemetry_si.Floats.{◌+ᶠ◌, ◌*ᶠ◌}
use formula_one_telemetry_si.Types.{DriverState, blank_state, blank_frame}
use formula_one_telemetry_si.Season.{default_track}
use formula_one_telemetry_si.Leaderboard.{
  Leaderboard, empty, update, size, snapshot, at_position, find_position,
}
use formula_one_telemetry_si.Program.{sorted_by_position}
use formula_one_telemetry_si.Program.Published.{published_lem}
use formula_one_telemetry_si.Spsc.{push}
use formula_one_telemetry_si.Spsc.Refine.{Represents}
use formula_one_telemetry_si.Spsc.Refine.Runs.{init-Represents}
use formula_one_telemetry_si.Telemetry.{
  World, TelemetryGenerator, new_generator, ticks, tick, move_cars, queue_capacity, total_laps,
  move_car, drive, finish_lap, should_pit, handle_pit, sector_at,
}
use formula_one_telemetry_si.Telemetry.Frames.{
  offered, frames, tick_offers, queue_capacity-IsCapacity,
}
use formula_one_telemetry_si.Telemetry.Positions.{
  state_of, update_positions_and_drs, assign, assign_drs,
}
use formula_one_telemetry_si.Telemetry.Positions.Sort.{insert, stable_sort}
use formula_one_telemetry_si.Telemetry.Positions.Standings.{update_positions_and_drs_lem}
use formula_one_telemetry_si.Telemetry.Pits.{PitOk, ticks-PitOk, pit_calls, pit_calls_lem}
use formula_one_telemetry_si.Telemetry.Laps.{greatest, lap_of, race_lap_lem}
use formula_one_telemetry_si.Telemetry.Bounds.{InRange, Fixed-HasLiterals, ticks-InRange}

-- A clock that ticks at each reading, and draws of one half.
abbrev pub calm : World Fixed ℕ
calm = record {
  normal = λ w. (fixed_floats.ratio 1 2, w);
  now = λ w. (w, suc w);
  millis = λ a b. fixed_floats.of_ℕ (b - a);
}

ticks-PitOk_example :
    let (g, w) = new_generator calm default_track 7 in
    All PitOk (ticks calm (λ _. false) 0 3 g w).0.states
ticks-PitOk_example = ticks-PitOk calm default_track (λ _. false) 3 7

ticks-InRange_example :
    let (g, w) = new_generator calm default_track 7 in
    All (λ s. InRange s.latest_frame) (ticks calm (λ _. false) 0 3 g w).0.states
ticks-InRange_example =
    ticks-InRange Fixed-IsOrdered Fixed-HasLiterals calm default_track (λ _. false) 3 7

abbrev started : TelemetryGenerator Fixed
started = (new_generator calm default_track 7).0

tick_offers_example :
    Represents queue_capacity
      (tick calm started 9).0.queue
      (offered (queue_capacity - 1) [] (frames (move_cars calm started.states started 9).0))
tick_offers_example =
    tick_offers calm started 9 [] (init-Represents queue_capacity-IsCapacity blank_frame)

abbrev car_at : ℕ → DriverState Fixed
car_at n = record (blank_state 0) { distance_in_lap = fixed_floats.ratio n 10 }

-- Three cars, the last of them in front.
abbrev field : List (DriverState Fixed)
field = car_at 2 ∷ car_at 1 ∷ car_at 5 ∷ []

abbrev ranked : List (DriverState Fixed)
ranked = update_positions_and_drs default_track field

ranked_first : (state_of ranked 2).position ≡ 1
unfolding update_positions_and_drs assign assign_drs insert stable_sort
ranked_first = refl

abbrev run_of : DriverState Fixed → Fixed
run_of s = fixed_floats.of_ℕ s.latest_frame.lap *ᶠ default_track.length_km +ᶠ s.distance_in_lap

update_positions_and_drs_lem_example :
    (1 ≤ (state_of ranked 0).position)
    × ((state_of ranked 0).position ≤ length field)
    × (((state_of ranked 0).position ≡ (state_of ranked 1).position) ↔ (◌≡◌ {A = ℕ} 0 1))
    × (((state_of ranked 1).position ≢ suc (state_of ranked 0).position)
        ⊎ (fixed_floats.lt (run_of (state_of ranked 0)) (run_of (state_of ranked 1)) ≡ false))
update_positions_and_drs_lem_example =
    update_positions_and_drs_lem Fixed-IsOrdered default_track field 0 1 (omega arith) (omega arith)

-- The board once a thread has published these.
abbrev board : Leaderboard Fixed
board = record { standings = sorted_by_position ranked; writer_id = some 7 }

published : update empty 7 (sorted_by_position ranked) ≡ some board
unfolding update
published = refl

leader_shown : at_position board 9 (pos 1) ≡ state_of ranked 2
unfolding update_positions_and_drs assign assign_drs insert stable_sort find_position
leader_shown = refl

published_lem_example :
    (size board ≡ 3)
    × (get_elem? (snapshot board) ((state_of ranked 2).position - 1) ≡ some (state_of ranked 2))
    × (at_position board 9 (pos (state_of ranked 2).position) ≡ state_of ranked 2)
    × (at_position board 9 (pos 4) ≡ blank_state 9)
published_lem_example =
    published_lem default_track field empty 7 board 9 2 4 published (omega arith)
      (inr (omega arith))

abbrev stopped : DriverState Fixed
stopped = record (blank_state 0) { in_pit = true; pit_timer_ticks = pos 11 }

pit_calls_lem_example :
    (((pit_calls 4 stopped).in_pit ≡ true) × ((pit_calls 4 stopped).pit_stops ≡ 0))
    × ((pit_calls 11 stopped).in_pit ≡ false)
    × ((pit_calls 11 stopped).pit_stops ≡ 1)
    × ((pit_calls 11 stopped).latest_frame.tire_wear ≡ fixed_floats.ratio 2 100)
    × ((pit_calls 11 stopped).latest_frame.fuel_kg ≡ fixed_floats.ratio 100 1)
pit_calls_lem_example = pit_calls_lem 10 4 stopped refl (omega arith)

race_lap_lem_example :
    let (new, w) = new_generator calm default_track 7 in
    let g = (ticks calm (λ _. false) 0 3 new w).0 in
    (g.race_lap ≡ greatest (map lap_of g.states))
    × ((g.race_finished ≡ false) ⊎ (total_laps < g.race_lap))
race_lap_lem_example = race_lap_lem calm default_track (λ _. false) 3 7

-- The first car stands in the pits; the second passes it and crosses the line on lap 50 in one tick.
abbrev last_metres : List (DriverState Fixed)
last_metres =
    record (blank_state 0) {
      position = 1;
      in_pit = true;
      pit_timer_ticks = pos 5;
      distance_in_lap = fixed_floats.ratio 5390 1000;
      latest_frame = record blank_frame { lap = 50 };
    }
    ∷ record (blank_state 0) {
      position = 2;
      distance_in_lap = fixed_floats.ratio 5389 1000;
      latest_frame = record blank_frame { lap = 50 };
    }
    ∷ []

abbrev finish_tick : TelemetryGenerator Fixed
finish_tick = (tick calm (record started { states = last_metres; race_lap = 50 }) 0).0

-- The winner has begun lap 51 and holds the first place, and the race is not over.
finish_tick-missed :
    (finish_tick.race_lap ≡ 51)
    × ((state_of finish_tick.states 1).position ≡ 1)
    × (finish_tick.race_finished ≡ false)
unfolding tick move_cars move_car drive finish_lap should_pit handle_pit update_positions_and_drs
    assign assign_drs insert stable_sort sector_at push
finish_tick-missed = (refl, refl, refl)
