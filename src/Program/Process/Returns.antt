-- ===== src/Program/Process/Returns.antt =====
-- From every state that the process reaches, `main` can come to its end.
use formula_one_telemetry_si.Prelude.{
  ℕ, ◌-◌, ◌≡◌, refl, ◌∙◌, ap, true, List, [], ◌∷◌, inl, inr, arith,
}
use mathlib.Core.Path.{subst}
use formula_one_telemetry_si.Floats.{Floats}
use formula_one_telemetry_si.Types.{DriverState, RaceControlEvent, TrackProfile}
use formula_one_telemetry_si.Queue.{FifoQueue}
use formula_one_telemetry_si.RaceState.{init}
use formula_one_telemetry_si.Telemetry
use formula_one_telemetry_si.Telemetry.{queue_capacity}
use formula_one_telemetry_si.Telemetry.Frames.{queue_capacity-IsCapacity as valid}
use formula_one_telemetry_si.TrackLimits
use formula_one_telemetry_si.Program.Process.{
  Object, Stage, starting_race, starting_generator, starting_consumer, watching, ending_race,
  stopping_generator, joining_generator, stopping_consumer, joining_consumer, reporting, leaving,
  joining_worker, Generating, Process, main_step, move_one, end_tick, generator_step, step, run,
  new_process, Turn, after,
}
use formula_one_telemetry_si.Program.Process.Control.{Left}
use formula_one_telemetry_si.Program.Process.Flowing.{new-Flowing}
use formula_one_telemetry_si.Program.Process.Callbacks.{new_process-IsSound, callback_done}
use formula_one_telemetry_si.Program.Process.Asked.{new_process-Asked}
use formula_one_telemetry_si.Program.Process.Ending.{
  Fine-step, pass, finish_leaving, finish_joining, finish_before, finish_report,
}
use formula_one_telemetry_si.Program.Process.Joins.{
  Good, Succeeds, from_joining_consumer, from_stopping_consumer, finish_generator, step-generator,
  turn_generator, finish_testing,
}

module _ {F Q W V : Type 0} ⦃f : Floats F⦄ (engine : Telemetry.World F V)
    (world : TrackLimits.World F W) (queue : FifoQueue Q RaceControlEvent) (tid : ℕ) (events : Q)
    (limits : W) (empty : queue.Holds events []) where
  abbrev Fair : Process F Q W V → Type 0
  Fair = Good engine world queue tid events limits

  abbrev Returns : Process F Q W V → Type 0
  Returns = Succeeds engine world queue tid events limits

  abbrev From : Stage → Type 0
  From st = (s : Process F Q W V) → Fair s → s.stage ≡ st → Returns s

  finish_publishing :
      (s : Process F Q W V)
      → Fair s
      → s.stage ≡ joining_generator
      → s.generating ≡ Generating.publishing
      → Returns s
  finish_publishing s v e here =
      let (fuel, p, called, _) =
        callback_done engine world queue tid s events limits (λ k. k) empty v.sound here in
      turn_generator engine world queue tid events limits s fuel Generating.testing v e
        (ap (λ (z : Process F Q W V). z.generating) called)
        (finish_testing engine world queue tid events limits)

  -- The cars that are still to move.
  finish_moving :
      (rest moved : List (DriverState F)) (s : Process F Q W V)
      → Fair s
      → s.stage ≡ joining_generator
      → s.generating ≡ Generating.moving moved rest
      → Returns s
  unfolding generator_step end_tick move_one
  finish_moving [] moved s v e here =
      turn_generator engine world queue tid events limits s 0 Generating.publishing v e
        (ap (λ (z : Process F Q W V). z.generating)
          (step-generator engine world queue tid events limits s 0 (Generating.moving moved [])
            here))
        finish_publishing
  finish_moving (state ∷ rest) moved s v e here =
      turn_generator engine world queue tid events limits s 0 _ v e
        (ap (λ (z : Process F Q W V). z.generating)
          (step-generator engine world queue tid events limits s 0
            (Generating.moving moved (state ∷ rest)) here))
        (finish_moving rest _)

  finish_thread :
      (g : Generating F) (s : Process F Q W V)
      → s.generating ≡ g
      → Fair s
      → s.stage ≡ joining_generator
      → Returns s
  finish_thread Generating.unstarted s here v e =
      finish_generator engine world queue tid events limits s v e (rw here refl)
  finish_thread Generating.returned s here v e =
      finish_generator engine world queue tid events limits s v e (rw here refl)
  finish_thread Generating.testing s here v e =
      finish_testing engine world queue tid events limits s v e here
  finish_thread Generating.publishing s here v e = finish_publishing s v e here
  finish_thread (Generating.moving moved rest) s here v e = finish_moving rest moved s v e here

  -- A stage that leads to the next with the race over or the time up.
  next :
      (from to : Stage)
      → ((s : Process F Q W V) → (main_step from true s).stage ≡ to)
      → From to
      → From from
  next from to goes rest s v e =
      pass engine world queue tid events limits from to s e (goes s) rest v

  from_joining_generator : From joining_generator
  from_joining_generator s v e = finish_thread s.generating s refl v e

  from_stopping_generator : From stopping_generator
  unfolding main_step
  from_stopping_generator =
      next stopping_generator joining_generator (λ s. refl) from_joining_generator

  from_ending_race : From ending_race
  unfolding main_step
  from_ending_race = next ending_race stopping_generator (λ s. refl) from_stopping_generator

  from_watching : From watching
  unfolding main_step
  from_watching = next watching ending_race (λ s. ground arith) from_ending_race

  from_starting_consumer : From starting_consumer
  unfolding main_step
  from_starting_consumer = next starting_consumer watching (λ s. refl) from_watching

  from_starting_generator : From starting_generator
  unfolding main_step
  from_starting_generator =
      next starting_generator starting_consumer (λ s. refl) from_starting_consumer

  from_starting_race : From starting_race
  unfolding main_step
  from_starting_race = next starting_race starting_generator (λ s. refl) from_starting_generator

  from_leaving : (os : List Object) → From (leaving os)
  from_leaving os s v e = before (subst (λ st. Left st s.pool) e v.sound.control.left)
    where
      before : Left (leaving os) s.pool → Returns s
      before (inl (n, le, same)) =
          finish_before engine world queue tid events limits n le s v (e ∙ ap leaving same)
      before (inr (over, out)) = finish_leaving engine world queue tid events limits os s e over

  from_joining_worker : (i : ℕ) (os : List Object) → From (joining_worker i os)
  from_joining_worker i os s v e =
      let (objects, le, out) = subst (λ st. Left st s.pool) e v.sound.control.left in
      finish_joining engine world queue tid events limits (2 - i) i os s (omega (arith, le))
        (rw objects refl) v e

  from : (st : Stage) → From st
  from starting_race = from_starting_race
  from starting_generator = from_starting_generator
  from starting_consumer = from_starting_consumer
  from watching = from_watching
  from ending_race = from_ending_race
  from stopping_generator = from_stopping_generator
  from joining_generator = from_joining_generator
  from stopping_consumer = from_stopping_consumer engine world queue tid events limits
  from joining_consumer = from_joining_consumer engine world queue tid events limits
  from reporting = finish_report engine world queue tid events limits
  from (leaving os) = from_leaving os
  from (joining_worker i os) = from_joining_worker i os

  run-Fine :
      (s : Process F Q W V) (ts : List (Turn F)) → Fair s → Fair (run engine world queue tid s ts)
  unfolding run
  run-Fine s [] v = v
  run-Fine s (t ∷ ts) v =
      run-Fine (step engine world queue tid s t) ts
        (Fine-step engine world queue tid events limits s t v)

  new_process-Fine :
      (track : TrackProfile F) (w : V) → Fair (new_process engine track events limits w)
  unfolding new_process
  new_process-Fine track w = record {
    sound = new_process-IsSound engine world queue tid track events limits w;
    flowing = new-Flowing valid init (refl, refl);
    asked = new_process-Asked engine world queue tid track events limits w;
  }

  -- Over a new queue of events, after any turns of the threads of `main`, there are turns of these threads
  -- after which `main` has returned and every local object has been destroyed, be it by the time limit
  -- of the loop that watches the race.
  pub main_returns :
      (track : TrackProfile F) (w : V) (ts : List (Turn F))
      → (us : List (Turn F)) × ((run engine world queue tid
            (after engine world queue tid track events limits w ts)
            us).stage
          ≡ leaving [])
  main_returns track w ts =
      let s = after engine world queue tid track events limits w ts in
      from s.stage s
        (run-Fine (new_process engine track events limits w) ts (new_process-Fine track w)) refl
