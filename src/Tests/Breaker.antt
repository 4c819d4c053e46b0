-- ===== src/Tests/Breaker.antt =====
-- asyncio_gateway/helpers/internal/circuit_breaker_helper.py at concrete inputs.
use async_gateway.Prelude.{
  List, All, ◌⊎◌, if◌then◌else◌, ℕ, suc, ◌+◌, ◌*◌, ◌≤◌, ◌≡◌, refl, true, false, none, some, [], ◌∷◌,
  arith,
}
use async_gateway.Errors.{
  unsupported_verb_error, response_too_deep_error, connect_error, is_subclass_of_any,
}
use async_gateway.Values.Floats.{whole}
use async_gateway.Breaker.Clock.{elapsed_below}
use async_gateway.Breaker.Failures.{Failure, gateway, is_caught, is_default_abortable}
use async_gateway.Breaker.{
  Breaker, Policy, is_open, half_open, new_breaker, allows_execution, record_success,
  record_failure, is_half_open, release_trial,
}
use async_gateway.Breaker.Trials.{
  Event, asks, ends, wakes, IsUncounted, admissions, admissions-le-one,
}
use async_gateway.Breaker.Attempt.{
  Outcome, answered, failed, retries_exhausted, returned, raised, ready, calling, finished, begin,
  settle, wake, invoke, after_invoke, should_abort, should_retry,
}
use async_gateway.Breaker.Refusals.{is_too_deep, settle-is_refusal}
use async_gateway.Breaker.Run.{Turn, run}
use async_gateway.Breaker.Run.Termination.{run_total}
use async_gateway.Breaker.Run.Results.{Retries, run-answered}
use async_gateway.Breaker.Run.Exhausted.{run-exhausted}
use async_gateway.Breaker.Tasks.{System, Reach, here, next, arrives, begins, settles}
use async_gateway.Breaker.Tasks.Reachable.{trial_free_again}
use async_gateway.Breaker.Tasks.Overlap.{entered, other, again, overlapping_trials}

classification : Unit {0}
unfolding is_caught should_abort is_default_abortable is_subclass_of_any should_retry
classification = tt

abbrev second : ℕ
second = 1000000000

-- Three retries of everything, without a wait.
abbrev eager : Policy
eager = record {
  allowed_retries = 3;
  should_abort = λ e. false;
  is_retriable = λ e. true;
  for_attempt = λ n. 0;
}

abbrev fresh : Breaker
fresh = new_breaker 5 (whole 60) (some eager) none none none

abbrev bare : Breaker
bare = new_breaker 5 (whole 60) none none none none

abbrev opened : Breaker
opened = record fresh { state = is_open; opened_at = second }

abbrev refused_connect : Failure
refused_connect = gateway connect_error 7

-- The first two attempts fail to connect and the third answers.
abbrev flaky : ℕ → Turn ℕ
flaky (suc (suc (suc n))) = record { entered = n; reply = answered 42; settled = n }
flaky n = record { entered = n; reply = failed refused_connect; settled = n }

third_attempt_answers : run flaky 20 fresh ≡ some (returned 42, fresh, 3)
unfolding run begin settle wake allows_execution record_failure record_success classification
third_attempt_answers = refl

abbrev refused_settings : Failure
refused_settings = gateway unsupported_verb_error 0

-- Three callers; between them another call is refused, and another one's wait ends.
abbrev asked : List Event
asked =
    asks 0
    ∷ asks (second * 61)
    ∷ ends (second * 61) 1 refused_settings
    ∷ wakes 1 refused_connect
    ∷ asks (second * 62)
    ∷ []

asked-IsUncounted : All (IsUncounted opened.retry_policy) asked
unfolding classification
asked-IsUncounted = (tt, (tt, (refl, (tt, (tt, tt)))))

admissions-le-one_example : (admissions asked opened).1 ≤ 1
admissions-le-one_example = admissions-le-one asked opened asked-IsUncounted (cc)

settle-is_refusal_example :
    (release_trial true (settle {A = ℕ} 9 1 true (failed refused_settings) fresh).1
      ≡ release_trial true
          (if is_too_deep unsupported_verb_error then record_failure 9 fresh else fresh))
    × ((is_too_deep unsupported_verb_error ≡ true)
        ⊎ (settle {A = ℕ} 9 1 true (failed refused_settings) fresh
            ≡ (after_invoke (invoke fresh.on_abort 1) (finished (raised refused_settings)), fresh)))
settle-is_refusal_example =
    settle-is_refusal ℕ 9 1 true unsupported_verb_error 0 fresh refl (λ h. cc)

-- A response that is nested too deep is counted against the server that sent it.
too_deep_counted :
    (settle {A = ℕ} 9 1 false (failed (gateway response_too_deep_error 0)) bare).1.failures ≡ 1
unfolding classification settle record_failure
too_deep_counted = refl

run_total_example : (r : Outcome ℕ × Breaker × ℕ) × (run flaky 14 fresh ≡ some r) × (r.2 ≤ 4)
run_total_example = run_total flaky 14 fresh (omega arith)

retried : Retries {A = ℕ} eager (failed refused_connect) refused_connect
unfolding classification
retried = record {
  fails = refl;
  caught = refl;
  no_refusal = refl;
  no_abort = refl;
  retriable = refl;
}

run-answered_example : run flaky 9 fresh ≡ some (returned 42, fresh, 3)
run-answered_example =
    run-answered flaky eager 2 9 (λ n. refused_connect) fresh 42
      (record { closed_now = refl; policy = refl; silent = refl }) (retried, (retried, tt)) refl
      (omega arith) (omega arith) (omega arith)

abbrev idle : System ℕ
idle = record { breaker = fresh; tasks = [] }

one_arrival : Reach idle (record idle { tasks = ready 0 none ∷ [] })
one_arrival = next here (arrives refl)

-- A half-open circuit; a caller takes its trial, and the call is refused by the package.
abbrev waiting : System ℕ
waiting = record { breaker = record fresh { state = half_open }; tasks = [] }

abbrev on_trial : System ℕ
on_trial = record {
  breaker = record waiting.breaker { trial_taken = true };
  tasks = calling 1 none true ∷ [];
}

abbrev tried : System ℕ
tried = record { breaker = waiting.breaker; tasks = finished (raised refused_settings) ∷ [] }

trial_begun : Reach waiting on_trial
unfolding begin allows_execution
trial_begun = next (next here (arrives refl)) (begins [] [] 5 0 none refl refl)

trial_refused : Reach waiting tried
unfolding settle classification
trial_refused = next trial_begun (settles [] [] 6 1 none true (failed refused_settings) refl refl)

trial_free_again_example :
    (tried.breaker.trial_taken ≡ false)
    × ((is_half_open tried.breaker.state ≡ false) ⊎ ((allows_execution 7 tried.breaker).1 ≡ true))
trial_free_again_example = trial_free_again waiting tried 7 trial_refused refl refl

-- The trial fails after 61 seconds, and another coroutine enters 70 seconds later.
abbrev trying : ℕ → Turn ℕ
trying n = record { entered = second * 62; reply = failed refused_connect; settled = second * 63 }

abbrev entering : ℕ → Turn ℕ
entering n = record {
  entered = second * 133;
  reply = failed refused_connect;
  settled = second * 134;
}

overlapping_trials_example :
    ((entered trying entering opened).0 ≡ calling 1 none true)
    × ((other trying entering opened).0 ≡ calling 1 none true)
    × ((again trying entering opened).0 ≡ calling 2 (some refused_connect) true)
    × ((again trying entering opened).1.state ≡ half_open)
unfolding elapsed_below
overlapping_trials_example =
    overlapping_trials trying entering opened eager refused_connect refl refl refl refl retried
      (omega arith) refl

-- Every attempt fails to connect.
abbrev down : ℕ → Turn ℕ
down n = record { entered = n; reply = failed refused_connect; settled = n }

run-exhausted_example :
    run down 20 fresh
    ≡ some (retries_exhausted refused_connect, record fresh { failures = 0 + 4 }, 4)
run-exhausted_example =
    run-exhausted down eager 20 (λ n. refused_connect) fresh
      (record { closed_now = refl; policy = refl; silent = refl }) refl
      (retried, (retried, (retried, (retried, tt)))) (omega arith) (omega arith)
