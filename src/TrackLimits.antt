-- ===== src/TrackLimits.antt =====
-- src/race_control/track_limits.h and track_limits.cpp: who is reported for leaving the track. The
-- random engine and the clock are an interface, threaded as a world.
pub mod Reports
use formula_one_telemetry_si.Prelude.{
  ℕ, Bool, true, false, Option, none, some, List, [], ◌∷◌, ◌++◌, if◌then◌else◌,
}
use formula_one_telemetry_si.Prelude.Text.{Text, codes, memcpy, to_string}
use formula_one_telemetry_si.Floats.{Floats, ◌+ᶠ◌, ◌*ᶠ◌, ◌/ᶠ◌}
use formula_one_telemetry_si.Types.{DriverState, EventType, RaceControlEvent, no_id}
use formula_one_telemetry_si.Queue.{FifoQueue}

-- `coin_(rng_)` and the clock.
pub record World (F W : Type 0) : Type 0 where
  pub coin : W → F × W
  pub now : W → ℕ × W

module _ {F : Type 0} ⦃f : Floats F⦄ where
  -- The probability that a car is reported.
  abbrev pub prob : DriverState F → F
  prob state =
      let frame = state.latest_frame in
      let speed_factor = frame.speed_kph /ᶠ f.ratio 280 1 in
      f.ratio 4 1000 *ᶠ state.profile.aggression *ᶠ (f.ratio 1 1 +ᶠ frame.tire_wear) *ᶠ speed_factor

  abbrev pub limits_event : ℕ → ℕ → DriverState F → RaceControlEvent
  limits_event now lap state = record {
    type = EventType.track_limits;
    driver_id = memcpy 3 state.profile.id no_id;
    lap = lap;
    message =
        state.profile.id
        ++ codes " exceeded track limits (S"
        ++ to_string state.latest_frame.sector
        ++ codes ")";
    timestamp = now;
  }

  module _ {W : Type 0} (world : World F W) where
    -- The body of the loop: the event, if any. An event reads the clock twice, once for the
    -- initialiser of its time.
    unfoldable pub check_car : ℕ → W → DriverState F → Option RaceControlEvent × W
    check_car lap w state =
        let (draw, w₁) = world.coin w in
        let (_, w₂) = world.now w₁ in
        let (now, w₃) = world.now w₂ in
        if state.in_pit
        then (none, w)
        else if f.lt draw (prob state)
        then (some (limits_event now lap state), w₃)
        else (none, w₁)

    module _ {Q : Type 0} (queue : FifoQueue Q RaceControlEvent) where
      abbrev pub push_some : Q → Option RaceControlEvent → Q
      push_some q none = q
      push_some q (some e) = queue.push q e

      -- `check`
      unfoldable pub check : ℕ → List (DriverState F) → Q → W → Q × W
      check lap [] q w = (q, w)
      check lap (state ∷ rest) q w =
          let (e, w') = check_car lap w state in check lap rest (push_some q e) w'
