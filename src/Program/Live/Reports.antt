-- ===== src/Program/Live/Reports.antt =====
-- The track-limits events among those that go through the queue.
use formula_one_telemetry_si.Prelude.{
  ℕ, suc, ◌≡◌, ap₂, refl, sym, ap, ◌∙◌, false, Bool-cases, inl, inr, ◌&&◌, Option, none, some, List,
  [], ◌∷◌, ◌++◌, append-nil, append_assoc, if◌then◌else◌, if-both, ltb, ◌+◌, All,
}
use mathlib.Core.Path.{subst}
use formula_one_telemetry_si.Prelude.Int.{ℤ, pos, negsuc}
use formula_one_telemetry_si.Prelude.Text.{until_nul}
use formula_one_telemetry_si.Floats.{Floats}
use formula_one_telemetry_si.Types.{DriverState, RaceControlEvent}
use formula_one_telemetry_si.Queue.{FifoQueue}
use formula_one_telemetry_si.Penalty.{Slots, is_track_limits, driver_index, handle, warn}
use formula_one_telemetry_si.Penalty.Machine.{
  Action, event, entered, exited, act, third, fresh, warn-pushed,
}
use formula_one_telemetry_si.Penalty.History.{run, listed}
use formula_one_telemetry_si.Penalty.Enforcer.{history}
use formula_one_telemetry_si.TrackLimits.{World, check, check_car, push_some}
use formula_one_telemetry_si.Weather.{WeatherSystem, update, no_change, weather_event, next_state}
use formula_one_telemetry_si.Program.Live.{reported}

unfoldable pub limits_of : List RaceControlEvent → List RaceControlEvent
limits_of [] = []
limits_of (e ∷ es) = if is_track_limits e.type then e ∷ limits_of es else limits_of es

pub limits_of-append :
    (xs ys : List RaceControlEvent) → limits_of (xs ++ ys) ≡ limits_of xs ++ limits_of ys
unfolding limits_of
limits_of-append [] ys = refl
limits_of-append (e ∷ xs) ys = elim (Bool-cases (is_track_limits e.type)) [
  | inl is ↦ rw is (ap (◌∷◌ e) (limits_of-append xs ys))
  | inr other ↦ rw other (limits_of-append xs ys)
]

-- The events of a history.
abbrev pub events_in : List Action → List RaceControlEvent
events_in [] = []
events_in (event now e ∷ acts) = e ∷ events_in acts
events_in (entered id ∷ acts) = events_in acts
events_in (exited id ∷ acts) = events_in acts

pub events_in-append : (a b : List Action) → events_in (a ++ b) ≡ events_in a ++ events_in b
events_in-append [] b = refl
events_in-append (event now e ∷ a) b = ap (◌∷◌ e) (events_in-append a b)
events_in-append (entered id ∷ a) b = events_in-append a b
events_in-append (exited id ∷ a) b = events_in-append a b

pub events_in-history :
    (clock : ℕ → ℕ) (k : ℕ) (es : List RaceControlEvent) → events_in (history clock k es) ≡ es
events_in-history clock k [] = refl
events_in-history clock k (e ∷ es) = ap (◌∷◌ e) (events_in-history clock (suc k) es)

-- No call about the pits.
abbrev pub IsEvent : Action → Type 0
IsEvent (event now e) = Unit
IsEvent (entered id) = ⊥
IsEvent (exited id) = ⊥

pub history-IsEvent :
    (clock : ℕ → ℕ) (k : ℕ) (es : List RaceControlEvent) → All IsEvent (history clock k es)
history-IsEvent clock k [] = tt
history-IsEvent clock k (e ∷ es) = (tt, history-IsEvent clock (suc k) es)

-- Events that join the queue, and those of them that join the log.
pub order-append :
    (acts : List Action) (waiting log es rs : List RaceControlEvent)
    → limits_of (events_in acts ++ waiting) ≡ limits_of log
    → limits_of es ≡ limits_of rs
    → limits_of (events_in acts ++ (waiting ++ es)) ≡ limits_of (log ++ rs)
order-append acts waiting log es rs order same =
    ap limits_of (sym (append_assoc (events_in acts) waiting es))
    ∙ limits_of-append (events_in acts ++ waiting) es
    ∙ ap₂ (λ (l m : List RaceControlEvent). l ++ m) order same
    ∙ sym (limits_of-append log rs)

-- The events of the queue join the history, and the announcements of the callback wait.
pub order-history :
    (acts : List Action) (clock : ℕ → ℕ) (waiting log left : List RaceControlEvent)
    → limits_of (events_in acts ++ waiting) ≡ limits_of log
    → limits_of left ≡ []
    → limits_of (events_in (acts ++ history clock 0 waiting) ++ left) ≡ limits_of (log ++ [])
unfolding limits_of
order-history acts clock waiting log left order none_left =
    ap (λ (l : List RaceControlEvent). limits_of (l ++ left))
      (events_in-append acts (history clock 0 waiting)
        ∙ ap (λ (l : List RaceControlEvent). events_in acts ++ l)
            (events_in-history clock 0 waiting))
    ∙ ap limits_of (append_assoc (events_in acts) waiting left)
    ∙ order-append acts waiting log left [] order none_left

-- No track-limits event.
abbrev IsOther : Option RaceControlEvent → Type 0
IsOther none = Unit
IsOther (some e) = is_track_limits e.type ≡ false

warn-IsOther : (now : ℕ) (s : Slots) (e : RaceControlEvent) (i : ℕ) → IsOther (warn now s e i).1
warn-IsOther now s e i =
    rw (warn-pushed now s e i) (if-both IsOther (third s i && fresh s i) (λ _. refl) (λ _. tt))

module _ (F : Type 0) ⦃f : Floats F⦄ where
  handle-IsOther : (now : ℕ) (s : Slots) (e : RaceControlEvent) → IsOther (handle F now s e).1
  unfolding handle
  handle-IsOther now s e =
      if-both (λ (r : Slots × Option RaceControlEvent). IsOther r.1) (is_track_limits e.type)
        (λ _. go (driver_index F (until_nul e.driver_id))) (λ _. tt)
    where
      go :
          (z : ℤ)
          → IsOther
              (elim z as (λ _. Slots × Option RaceControlEvent) [
                | pos i ↦ warn now s e i
                | negsuc _ ↦ (s, none)
              ]).1
      go (pos i) = warn-IsOther now s e i
      go (negsuc n) = tt

  limits_of-listed :
      (o : Option RaceControlEvent) (es : List RaceControlEvent)
      → IsOther o
      → limits_of (listed F o es) ≡ limits_of es
  unfolding limits_of
  limits_of-listed none es h = refl
  limits_of-listed (some e) es h = rw h refl

  -- What the enforcer announces is no track-limits event.
  pub limits_of-run :
      (clock : ℕ → ℕ) (k : ℕ) (es : List RaceControlEvent) (s : Slots)
      → limits_of (run F s (history clock k es)).1 ≡ []
  unfolding run act limits_of
  limits_of-run clock k [] s = refl
  limits_of-run clock k (e ∷ es) s =
      limits_of-listed (handle F (clock k) s e).1 _ (handle-IsOther (clock k) s e)
      ∙ limits_of-run clock (suc k) es (handle F (clock k) s e).0

module _ {F : Type 0} ⦃f : Floats F⦄ {Q W : Type 0} (world : World F W)
    (queue : FifoQueue Q RaceControlEvent) where
  open queue use {Holds, push-Holds}

  Holds-push_some :
      (o : Option RaceControlEvent) (q : Q) (xs es : List RaceControlEvent) (next : Q → Q)
      → Holds q xs
      → ((q' : Q) (ys : List RaceControlEvent) → Holds q' ys → Holds (next q') (ys ++ es))
      → Holds
          (next (push_some world queue q o))
          (xs ++ elim o as (λ _. List RaceControlEvent) [ none ↦ es | some e ↦ e ∷ es ])
  Holds-push_some none q xs es next h k = k q xs h
  Holds-push_some (some e) q xs es next h k =
      subst (Holds (next (queue.push q e))) (append_assoc xs (e ∷ []) es)
        (k (queue.push q e) (xs ++ e ∷ []) (push-Holds q xs e h))

  -- A check pushes its reports, and nothing else.
  pub Holds-check :
      (lap : ℕ) (states : List (DriverState F)) (q : Q) (xs : List RaceControlEvent) (w : W)
      → Holds q xs
      → Holds (check world queue lap states q w).0 (xs ++ reported world queue lap states w)
  unfolding check reported
  Holds-check lap [] q xs w h = subst (Holds q) (sym (append-nil xs)) h
  Holds-check lap (s ∷ rest) q xs w h =
      let w' = (check_car world lap w s).1 in
      Holds-push_some (check_car world lap w s).0 q xs (reported world queue lap rest w')
        (λ q'. (check world queue lap rest q' w').0) h
        (λ q' ys held. Holds-check lap rest q' ys w' held)

  -- An update of the weather pushes at most an event that is no track-limits event.
  abbrev Announced : Q → List RaceControlEvent → Type 0
  Announced q xs = (es : List RaceControlEvent) × Holds q (xs ++ es) × (limits_of es ≡ [])

  pub Announced-update :
      (coin : F) (now lap : ℕ) (v : WeatherSystem Q) (xs : List RaceControlEvent)
      → Holds v.events xs
      → Announced (update queue coin now lap v).events xs
  unfolding update limits_of
  Announced-update coin now lap v xs h =
      let same : Announced v.events xs =
        ([], subst (Holds v.events) (sym (append-nil xs)) h, refl) in
      if-both (λ (z : WeatherSystem Q). Announced z.events xs) (ltb lap (v.last_update_lap + 5))
        (λ _. same)
        (λ _.
          if-both (λ (z : WeatherSystem Q). Announced z.events xs) (no_change coin) (λ _. same)
            (λ _.
              let e = weather_event now lap (next_state v.state) in
              (e ∷ [], push-Holds v.events xs e h, refl)))
