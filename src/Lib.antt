-- ===== src/Lib.antt =====
-- Formula One telemetry simulator: the queues, the shared race state and race control.
--
-- The simulator (src/main.cpp) generates telemetry frames on one thread, which pass through a
-- bounded ring (`SpscQueue`) to a thread that claims fastest laps in the shared `RaceState`. After
-- each tick a callback publishes the standings to the `Leaderboard`, and starts weather and
-- track-limits checks on a thread pool, which push events to a second queue, and `PenaltyEnforcer`
-- empties that queue.
--
-- Prelude: the shared names of the libraries, Boolean tests, lists, integers, bit masks, texts.
-- Floats: `float` as an interface, an ordered structure with the operations that the code uses; a
--   theorem that needs an order has its laws as the hypothesis `IsOrdered`, stated for values that
--   compare with themselves, so that a NaN is allowed. Floats/Fixed fills it with whole millionths.
-- Types: src/common/types.h. Season: src/common/season_data.h, with the tables as they stand.
-- Spsc: src/concurrency/spsc_queue.h. `push` and `pop` are functions on the ring's fields; in
--   Spsc/Threads both are cut at each access to shared memory, for one producer and one consumer
--   that interleave in any order. Spsc/Fifo is the contract, Spsc/Refine meets it. An index is a
--   `size_t`, with its wrap written out.
-- Queue: what race control relies on in the event queue, as an interface.
-- Mpsc: src/concurrency/mpsc_queue.h. Mpsc/Nodes is the heap; an allocation takes any address that
--   holds nothing. `push` and `pop` are cut at each access that threads share, for any number of
--   producers and one consumer that interleave in any order. Mpsc/Inv is the invariant, and
--   Mpsc/Keeps takes up each kind of turn. Mpsc/Calls has the calls with nothing between, which fill
--   the interface of Queue, and Mpsc/Calls/Destroy the destructor, whose loop runs on fuel; more fuel
--   than values is enough.
-- Penalty: src/race_control/penalty_enforcer.h and .cpp, over that interface. `process_events`
--   empties the queue on fuel; more fuel than events is enough. A warning counter is an `int`, kept
--   as its bit pattern.
-- Weather: src/race_control/weather.h and .cpp, over the same interface.
-- RaceState: src/common/race_state.h. RaceState/Claim cuts `try_claim_fastest_lap` at its accesses
--   to the atomics, for any number of threads, with spurious failures of the weak exchange.
-- Telemetry: src/simulation/telemetry_generator.h and .cpp, a tick at a time. Telemetry/Positions is
--   `update_positions_and_drs`, with the stable sort by insertion. The rounds of `run` are counted by
--   a number, so that a theorem about any number of rounds covers every moment of the loop.
-- LapTimes: src/simulation/lap_time_consumer.h and .cpp, over the ring. The last loop runs on fuel;
--   more fuel than frames is enough. LapTimes/Pipeline has both loops against the pushes of the
--   generator, a call of the ring at a time.
-- TrackLimits: src/race_control/track_limits.h and .cpp, over the interface of the event queue.
-- Leaderboard: src/common/leaderboard.h; a call holds the lock to its end, so it is one step.
-- Program: the callback of a tick in src/main.cpp. The thread pool is the list of the jobs submitted,
--   each of which ends at some time; a future is the number of its job. Program/Console is the loop of
--   the main thread, on fuel, with 122 rounds enough for its timeout, and what it prints;
--   Program/Fastest leads from the frames to the line of the fastest lap, and Program/Published from
--   the positions to what readers of the leaderboard get. Program/Live is a step relation of callbacks
--   and jobs over one queue of race control, each of them one step; Program/Exclusive is about the
--   single flight of a job.
--   Program/Process is `main` with its five threads, which take turns in any order: the starts, the
--   stops and the joins of the main thread, and the order in which it destroys its local objects. A
--   turn of the generator moves one car, or is one callback, on fuel; a callback that throws leaves its
--   thread where it stands. Program/Process/Reaches says which objects a turn reaches.
-- Pool: src/concurrency/thread_pool.h and .cpp. What a thread does under the mutex is one turn, for
--   any number of workers that interleave in any order.
-- Tests: runs on small inputs.
--
-- Random draws and clock readings are arguments, or come from an interface `World`. Memory is
-- sequentially consistent: each access is one turn and sees every store made before it, so the choice
-- of memory orders is not modelled; nor is cache-line padding. The text that a stream
-- makes of a `float` is a parameter.
--
-- A ring's capacity is valid where it passes the two assertions of its class and fits a `size_t`.
pub mod Prelude
pub mod Spsc
pub mod Floats
pub mod Types
pub mod Season
pub mod Queue
pub mod Penalty
pub mod Weather
pub mod RaceState
pub mod Leaderboard
pub mod LapTimes
pub mod TrackLimits
pub mod Telemetry
pub mod Program
pub mod Mpsc
pub mod Pool
pub mod Tests
