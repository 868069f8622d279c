-- ===== src/TrackLimits/Reports.antt =====
-- What `check` pushes.
use formula_one_telemetry_si.Prelude.{
  ℕ, ◌≡◌, refl, sym, true, false, Option, none, some, List, [], ◌∷◌, ◌++◌, All, if-both, append-nil,
  append_assoc,
}
use mathlib.Core.Path.{subst}
use formula_one_telemetry_si.Prelude.Text.{until_nul}
use formula_one_telemetry_si.Floats.{Floats}
use formula_one_telemetry_si.Types.{DriverState, EventType, RaceControlEvent}
use formula_one_telemetry_si.Season.Lookup.{short, stored_id}
use formula_one_telemetry_si.Queue.{FifoQueue}
use formula_one_telemetry_si.TrackLimits.{World, prob, check_car, push_some, check}

-- The events report, in order and each at most once, drivers of the list who are not in the pits.
pub data Reports {F : Type 0} (lap : ℕ)
    : List (DriverState F) → List RaceControlEvent → Type 0 where
  done : Reports lap [] []
  pass :
      {s : DriverState F} {rest : List (DriverState F)} {es : List RaceControlEvent}
      → Reports lap rest es
      → Reports lap (s ∷ rest) es
  report :
      {s : DriverState F} {rest : List (DriverState F)} {e : RaceControlEvent}
      {es : List RaceControlEvent}
      → s.in_pit ≡ false
      → e.type ≡ EventType.track_limits
      → e.lap ≡ lap
      → until_nul e.driver_id ≡ s.profile.id
      → Reports lap rest es
      → Reports lap (s ∷ rest) (e ∷ es)

module _ {F : Type 0} ⦃f : Floats F⦄ {W : Type 0} (world : World F W) {Q : Type 0}
    (queue : FifoQueue Q RaceControlEvent) where
  open queue use {Holds, push-Holds}

  -- One car: nothing, or its event where it is on the track.
  abbrev CarReports : ℕ → DriverState F → Option RaceControlEvent → Type 0
  CarReports lap s none = Unit
  CarReports lap s (some e) =
      (s.in_pit ≡ false)
      × (e.type ≡ EventType.track_limits)
      × (e.lap ≡ lap)
      × (until_nul e.driver_id ≡ s.profile.id)

  check_car-CarReports :
      (lap : ℕ) (w : W) (s : DriverState F)
      → short s.profile.id ≡ true
      → CarReports lap s (check_car world lap w s).0
  unfolding check_car
  check_car-CarReports lap w s h =
      if-both (λ (r : Option RaceControlEvent × W). CarReports lap s r.0) s.in_pit (λ _. tt)
        (λ out.
          if-both (λ (r : Option RaceControlEvent × W). CarReports lap s r.0)
            (f.lt (world.coin w).0 (prob s)) (λ _. (out, refl, refl, stored_id s.profile.id h))
            (λ _. tt))

  -- What a check of `states` is to do to a queue.
  abbrev Leaves : ℕ → List (DriverState F) → List RaceControlEvent → Q → Type 0
  Leaves lap states xs q = (es : List RaceControlEvent) × Holds q (xs ++ es) × Reports lap states es

  one_more :
      (lap : ℕ) (s : DriverState F) (rest : List (DriverState F)) (q : Q)
      (xs : List RaceControlEvent) (o : Option RaceControlEvent) (next : Q → Q)
      → CarReports lap s o
      → Holds q xs
      → ((q' : Q) (ys : List RaceControlEvent) → Holds q' ys → Leaves lap rest ys (next q'))
      → Leaves lap (s ∷ rest) xs (next (push_some world queue q o))
  one_more lap s rest q xs none next _ h k =
      let (es, held, told) = k q xs h in (es, held, Reports.pass told)
  one_more lap s rest q xs (some e) next (out, limits, on, id) h k =
      let (es, held, told) = k (queue.push q e) (xs ++ e ∷ []) (push-Holds q xs e h) in
      (
        e ∷ es,
        subst (Holds (next (queue.push q e))) (append_assoc xs (e ∷ []) es) held,
        Reports.report out limits on id told,
      )

  -- Over a queue that meets its contract, and drivers whose ids have three bytes, none of them 0:
  -- `check` leaves what the queue held and then events of the lap that report, in order and each at
  -- most once, drivers of the list who are not in the pits, each by an id that reads back as the
  -- driver's.
  pub check-Reports :
      (lap : ℕ) (states : List (DriverState F)) (q : Q) (xs : List RaceControlEvent) (w : W)
      → All (λ s. short s.profile.id ≡ true) states
      → Holds q xs
      → (es : List RaceControlEvent) × Holds (check world queue lap states q w).0 (xs ++ es)
        × Reports lap states es
  unfolding check
  check-Reports lap [] q xs w ids h = ([], subst (Holds q) (sym (append-nil xs)) h, Reports.done)
  check-Reports lap (s ∷ rest) q xs w ids h =
      one_more lap s rest q xs (check_car world lap w s).0
        (λ q'. (check world queue lap rest q' (check_car world lap w s).1).0)
        (check_car-CarReports lap w s ids.0) h
        (λ q' ys held. check-Reports lap rest q' ys (check_car world lap w s).1 ids.1 held)
