-- ===== src/Program/Fastest.antt =====
-- From the frames to the line of the fastest lap that src/main.cpp prints.
use formula_one_telemetry_si.Prelude.{
  ℕ, ◌≤◌, sym, ◌≡◌, refl, ◌∙◌, ◌⊎◌, inl, inr, Bool, true, false, ◌&&◌, some, none, List, [], ◌∷◌,
  ◌++◌, append-nil, append_assoc, length, get_elem?, get_elem?-append_left, get_elem?-append_last,
  All, All-append, ltb, lt_of_get_elem?, arith,
}
use mathlib.Core.Path.{subst}
use formula_one_telemetry_si.Prelude.Int.{ℤ, pos, negsuc}
use formula_one_telemetry_si.Prelude.Text.{until_nul}
use formula_one_telemetry_si.Floats.{Floats, IsOrdered}
use formula_one_telemetry_si.Floats.Order.{lt_irrefl, not-lt_of_lt}
use formula_one_telemetry_si.Types.{TelemetryFrame, DriverProfile, zero_f}
use formula_one_telemetry_si.Season.{drivers, driver_index_of}
use formula_one_telemetry_si.Season.Lookup.{driver_index_of_iff}
use formula_one_telemetry_si.RaceState.{RaceState, init, try_claim_fastest_lap}
use formula_one_telemetry_si.Spsc.{IsCapacity}
use formula_one_telemetry_si.LapTimes.{LapTimeConsumer, consume, drain}
use formula_one_telemetry_si.LapTimes.Pipeline
use formula_one_telemetry_si.LapTimes.Pipeline.{new_pipeline, accepted_consumed}
use formula_one_telemetry_si.LapTimes.Claims.{consume_all}
use formula_one_telemetry_si.Program.Console.{fastest_driver}

abbrev is_row : ℤ → Bool
is_row (pos _) = true
is_row (negsuc _) = false

module _ {F : Type 0} ⦃f : Floats F⦄ where
  abbrev row_of : TelemetryFrame F → ℤ
  row_of t = driver_index_of F (until_nul t.driver_id)

  -- Whether a frame has a lap of a known driver in less than `best`.
  abbrev pub beats : F → TelemetryFrame F → Bool
  beats best t = f.lt zero_f t.lap_time_ms && is_row (row_of t) && f.lt t.lap_time_ms best

  -- A frame is passed over, or its lap is claimed.
  Passes : RaceState F → TelemetryFrame F → Type 0
  Passes r t = (beats r.fastest_lap_ms t ≡ false) × (consume r t ≡ r)

  Claims : RaceState F → TelemetryFrame F → Type 0
  Claims r t =
      (i : ℕ) × (row_of t ≡ pos i)
      × (f.lt zero_f t.lap_time_ms ≡ true)
      × (consume r t ≡ record r { fastest_lap_holder = pos i; fastest_lap_ms = t.lap_time_ms })
      × (f.lt t.lap_time_ms r.fastest_lap_ms ≡ true)

  consume-cases :
      (r : RaceState F) (t : TelemetryFrame F) (p q : Bool) (z : ℤ)
      → f.lt zero_f t.lap_time_ms ≡ p
      → row_of t ≡ z
      → f.lt t.lap_time_ms r.fastest_lap_ms ≡ q
      → Passes r t ⊎ Claims r t
  unfolding Passes Claims consume try_claim_fastest_lap
  consume-cases r t false q z a b c = inl (rw (a, consume) (refl, refl))
  consume-cases r t true q (negsuc n) a b c = inl (rw (a, b, consume) (refl, refl))
  consume-cases r t true false (pos i) a b c =
      inl (rw (a, b, c, consume, try_claim_fastest_lap) (refl, refl))
  consume-cases r t true true (pos i) a b c = inr (i, b, a, rw (a, b, consume, c) refl, c)

  -- The holder and the time are those of a frame seen, or none was claimed.
  abbrev Held : List (TelemetryFrame F) → RaceState F → Type 0
  Held seen r =
      ((r.fastest_lap_holder ≡ negsuc 0) × (r.fastest_lap_ms ≡ f.largest))
      ⊎ ((k : ℕ) × (t : TelemetryFrame F) × (i : ℕ) × (get_elem? seen k ≡ some t)
          × (row_of t ≡ pos i)
          × (f.lt zero_f t.lap_time_ms ≡ true)
          × (r.fastest_lap_holder ≡ pos i)
          × (r.fastest_lap_ms ≡ t.lap_time_ms))

  -- No frame seen has a better lap than the one held.
  abbrev IsBest : List (TelemetryFrame F) → F → Type 0
  IsBest seen best = All (λ t. beats best t ≡ false) seen

  -- What the report of the fastest lap is to say once `ts` has been consumed.
  abbrev pub ReportOf : List (TelemetryFrame F) → RaceState F → Type 0
  ReportOf ts r =
      ((fastest_driver r ≡ none) × All (λ t. beats f.largest t ≡ false) ts)
      ⊎ ((k : ℕ) × (t : TelemetryFrame F) × (d : DriverProfile F) × (get_elem? ts k ≡ some t)
          × (fastest_driver r ≡ some d)
          × (d.id ≡ until_nul t.driver_id)
          × (f.lt zero_f t.lap_time_ms ≡ true)
          × (r.fastest_lap_ms ≡ t.lap_time_ms)
          × All (λ u. beats t.lap_time_ms u ≡ false) ts)

  Held-append :
      (seen : List (TelemetryFrame F)) (t : TelemetryFrame F) (r : RaceState F)
      → Held seen r
      → Held (seen ++ t ∷ []) r
  Held-append seen t r (inl nothing) = inl nothing
  Held-append seen t r (inr (k, u, i, there, row, lap, holder, time)) = inr (
    k,
    u,
    i,
    get_elem?-append_left seen (t ∷ []) k (lt_of_get_elem? seen k u there) ∙ there,
    row,
    lap,
    holder,
    time,
  )

  module _ (laws : IsOrdered F) where
    beats-of_lt :
        (t : TelemetryFrame F) (a b : F) → f.lt a b ≡ true → beats b t ≡ false → beats a t ≡ false
    beats-of_lt t a b less none_beats = ground (arith, not-lt_of_lt laws t.lap_time_ms a b)

    IsBest-of_lt :
        (seen : List (TelemetryFrame F)) (a b : F) → f.lt a b ≡ true → IsBest seen b → IsBest seen a
    IsBest-of_lt [] a b less v = tt
    IsBest-of_lt (t ∷ ts) a b less v = (beats-of_lt t a b less v.0, IsBest-of_lt ts a b less v.1)

    beats_self : (t : TelemetryFrame F) → beats t.lap_time_ms t ≡ false
    beats_self t = ground (arith, lt_irrefl laws t.lap_time_ms)

    consume-Held :
        (seen : List (TelemetryFrame F)) (t : TelemetryFrame F) (r : RaceState F)
        → Held seen r
        → IsBest seen r.fastest_lap_ms
        → Passes r t ⊎ Claims r t
        → Held (seen ++ t ∷ []) (consume r t) × IsBest (seen ++ t ∷ []) (consume r t).fastest_lap_ms
    unfolding Passes Claims
    consume-Held seen t r h v (inl (slow, same)) =
        rw same (Held-append seen t r h, All-append _ seen (t ∷ []) v (slow, tt))
    consume-Held seen t r h v (inr (i, row, lap, claimed, less)) = rw claimed (
      inr (
        length seen,
        t,
        i,
        get_elem?-append_last seen t (length seen) refl,
        row,
        lap,
        refl,
        refl,
      ),
      All-append _ seen (t ∷ []) (IsBest-of_lt seen t.lap_time_ms r.fastest_lap_ms less v)
          (beats_self t, tt),
    )

    consume_all-Held :
        (seen ts : List (TelemetryFrame F)) (r : RaceState F)
        → Held seen r
        → IsBest seen r.fastest_lap_ms
        → Held (seen ++ ts) (consume_all r ts)
          × IsBest (seen ++ ts) (consume_all r ts).fastest_lap_ms
    consume_all-Held seen [] r h v = rw (append-nil seen) (h, v)
    consume_all-Held seen (t ∷ ts) r h v =
        let (h', v') = consume-Held seen t r h v (consume-cases r t _ _ _ refl refl refl) in
        rw (← append_assoc seen (t ∷ []) ts)
          (consume_all-Held (seen ++ t ∷ []) ts (consume r t) h' v')

    pub fastest_driver_lem : (ts : List (TelemetryFrame F)) → ReportOf ts (consume_all init ts)
    unfolding fastest_driver
    fastest_driver_lem ts =
        let (h, v) = consume_all-Held [] ts init (inl (refl, refl)) tt in
        elim h [
          | inl (nobody, time) ↦ inl (rw (nobody, fastest_driver) refl, subst (IsBest ts) time v)
          | inr (k, t, i, there, row, lap, holder, time) ↦
              let (d, at, id) = (driver_index_of_iff F (until_nul t.driver_id) i).0 row in
              let inside : ltb i (length (drivers {F = F})) ≡ true =
                ground (arith, lt_of_get_elem? (drivers {F = F}) i d at) in
              inr (
                k,
                t,
                d,
                there,
                rw (holder, fastest_driver, inside) at,
                id,
                lap,
                time,
                subst (IsBest ts) time v,
              )
        ]

    -- On a ring of a valid capacity and on floats whose `<` is a strict order, after any pushes of frames
    -- and rounds of the consumer from a new race state, the consumer's last loop ends, and then: either
    -- the report of the fastest lap names no driver, and no frame that the ring accepted has a lap of a
    -- known driver under the largest `float`; or it names the driver of an accepted frame that has a lap, with the lap
    -- time of that frame, and no accepted frame has a better lap of a known driver.
    pub report_drained :
        {capacity : ℕ} (valid : IsCapacity capacity) (blank : TelemetryFrame F)
        (turns : List (Pipeline.Turn F)) (fuel : ℕ)
        → capacity ≤ fuel
        → let p = Pipeline.run capacity (new_pipeline capacity blank init) turns in
          (c : LapTimeConsumer F) × (drain capacity fuel p.consumer ≡ some c)
          × ReportOf p.accepted c.race_state
    report_drained {capacity} valid blank turns fuel enough =
        let p = Pipeline.run capacity (new_pipeline capacity blank init) turns in
        let (c, ends, consumed, _) = accepted_consumed valid init blank turns fuel enough in
        (c, ends, subst (ReportOf p.accepted) (sym consumed) (fastest_driver_lem p.accepted))
