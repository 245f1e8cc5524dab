-- ===== src/Scheduler/Parallel/Samples.antt =====
-- Two workers on three groups: the last one waits for the first one, of the same package system.
use req_pack_core.Prelude.{
  text_beq, ℕ, zero, suc, ◌<◌, true, false, nat_eq, text_eq, Text, codes, List, [], ◌∷◌, contains,
  arith, ◌≡◌, ◌≢◌, refl,
}
use req_pack_core.Scheduler.Family.{update, count, total}
use req_pack_core.Scheduler.Parallel.{
  Plans, looking, running, initial_state, take_group, launch, complete_group, mark_completed,
  settle_successors, System, launches, ends, Reach, start, later,
}
use req_pack_core.Scheduler.Parallel.Scan.{InRange}
use req_pack_core.Scheduler.Parallel.Invariant.{Precedes, IsPlan}
use req_pack_core.Scheduler.Parallel.Safety.{
  Reach-mutual_exclusion, Reach-started, take_group-fresh,
}

abbrev three_system : ℕ → Text
three_system zero = codes "apt"
three_system (suc zero) = codes "npm"
three_system _ = codes "apt"

abbrev three_successors : ℕ → List ℕ
three_successors zero = 2 ∷ []
three_successors _ = []

abbrev three_pending : ℕ → ℕ
three_pending (suc (suc zero)) = 1
three_pending _ = 0

abbrev three_groups : Plans
three_groups = record {
  size = 3;
  system = three_system;
  successors = three_successors;
  pending_dependencies = three_pending;
}

three_counted : (j : ℕ) → j < 3 → three_pending j ≡ total 3 (λ p. count j (three_successors p))
unfolding count total
three_counted zero h = refl
three_counted (suc zero) h = refl
three_counted (suc (suc zero)) h = refl
three_counted (suc (suc (suc j))) h = omega arith

three-InRange : (p : ℕ) → InRange three_groups (three_successors p)
three-InRange zero = (omega arith, tt)
three-InRange (suc p) = tt

three_groups-IsPlan : IsPlan three_groups
three_groups-IsPlan = record { counted = three_counted; in_range = three-InRange }

abbrev at_start : System
at_start = record { state = initial_state three_groups; worker = λ k. looking }

-- The first worker has taken the first group.
abbrev one_runs : System
one_runs = record {
  state = (take_group three_groups at_start.state).1;
  worker = update at_start.worker 0 (running 0);
}

-- The second worker has taken the second group.
abbrev two_run : System
two_run = record {
  state = (take_group three_groups one_runs.state).1;
  worker = update one_runs.worker 1 (running 1);
}

-- The first worker has run its group, without a failure.
abbrev one_ended : System
one_ended = record {
  state = complete_group true three_groups 0 false two_run.state;
  worker = update two_run.worker 0 looking;
}

-- The first worker has taken the last group.
abbrev last_runs : System
last_runs = record {
  state = (take_group three_groups one_ended.state).1;
  worker = update one_ended.worker 0 (running 2);
}

takes_first : (take_group three_groups at_start.state).0 ≡ launch 0
unfolding initial_state take_group contains text_beq
takes_first = refl

takes_second : (take_group three_groups one_runs.state).0 ≡ launch 1
unfolding initial_state take_group contains text_beq
takes_second = refl

takes_last : (take_group three_groups one_ended.state).0 ≡ launch 2
unfolding initial_state take_group complete_group mark_completed settle_successors contains text_beq
takes_last = refl

Reach-one : Reach true three_groups one_runs
Reach-one = later start (launches 0 0 refl takes_first refl)

Reach-two : Reach true three_groups two_run
Reach-two = later Reach-one (launches 1 1 refl takes_second refl)

Reach-ended : Reach true three_groups one_ended
Reach-ended = later Reach-two (ends 0 0 false refl refl)

Reach-last : Reach true three_groups last_runs
Reach-last = later Reach-ended (launches 0 2 refl takes_last refl)

last_started : last_runs.state.started 2 ≡ true
unfolding initial_state take_group complete_group mark_completed settle_successors contains text_beq
last_started = refl

first-Precedes-last : Precedes three_groups 0 2
unfolding count
first-Precedes-last = refl

Reach-mutual_exclusion_example :
    (0 < 3)
    × (two_run.state.started 0 ≡ true)
    × (two_run.state.completed 0 ≡ false)
    × (two_run.worker 1 ≡ running 1 → codes "apt" ≡ codes "npm" → ◌≡◌ {A = ℕ} 0 1)
Reach-mutual_exclusion_example =
    Reach-mutual_exclusion true three_groups three_groups-IsPlan Reach-two 0 1 0 1 refl

Reach-started_example : (last_runs.state.completed 0 ≡ true) × (last_runs.state.failed 0 ≡ false)
Reach-started_example =
    Reach-started true three_groups three_groups-IsPlan Reach-last 0 2 (omega arith)
      first-Precedes-last last_started

take_group-fresh_example :
    (2 < 3)
    × (one_ended.state.started 2 ≡ false)
    × (one_ended.state.failed 2 ≡ false)
    × ((take_group three_groups one_ended.state).1.started 2 ≡ true)
    × ((k i : ℕ) → one_ended.worker k ≡ running i → three_system i ≢ codes "apt")
take_group-fresh_example =
    take_group-fresh true three_groups three_groups-IsPlan Reach-ended 2 takes_last
