-- ===== src/Tests/Gcs.antt =====
-- The GCS client of asyncio_gateway/logic/gcs_client.py at concrete inputs.
use async_gateway.Gcs.Failures.{service_failure_for}
use async_gateway.Gcs.Failures.{converted}
use async_gateway.Breaker.{record_failure}
use async_gateway.Breaker.Attempt.{should_retry}
use async_gateway.Errors.{is_subclass_of_any}
use async_gateway.Breaker.Failures.{is_default_abortable}
use async_gateway.Breaker.Attempt.{should_abort}
use async_gateway.Breaker.Failures.{is_caught}
use async_gateway.Breaker.{allows_execution}
use async_gateway.Prelude.{
  ◌⊎◌, ◌≢◌, ◌<◌, ℕ, drop, take, ◌+◌, ◌-◌, ◌≤◌, ◌≡◌, refl, true, false, Option, none, some, List, [],
  ◌∷◌, ◌++◌, All, length,
}
use async_gateway.Prelude.Int.{pos}
use async_gateway.Values.{int, none_value, text}
use async_gateway.Values.Floats.{whole}
use async_gateway.Errors.{async_gateway_error}
use async_gateway.Breaker.{Breaker, new_breaker}
use async_gateway.Breaker.Failures.{gateway}
use async_gateway.Breaker.Attempt.{Outcome, retries_exhausted}
use async_gateway.Breaker.Run.{Turn, run}
use async_gateway.Breaker.Run.Raised.{IsPlain}
use async_gateway.Gcs.Leases.{
  acquire_gcs_lease, release_gcs_lease, Offloader, GcsLease, System, acquires, closes, Reach, here,
  next, start, gcs_max_leases, release, shutdown_gcs_offloader,
}
use async_gateway.Gcs.Leases.Capacity.{count_held, Reach-IsSafe}
use async_gateway.Gcs.Failures.{Failure, service, service_failure, Answer, answered, failed}
use async_gateway.Gcs.Calls.{
  Course, ended_at, interrupted, returned, was_cancelled, expired, ran_out,
}
use async_gateway.Gcs.Calls
use async_gateway.Gcs.Calls.Ownership.{handed_over, run-owned}
use async_gateway.Gcs.Downloads.{download_chunks}
use async_gateway.Gcs.Downloads.Ranges.{joined, IsChunk, download_chunks_total}
use async_gateway.Gcs.Downloads.Exact.{download_chunks-exact}
use async_gateway.Gcs.Attempts.{Session, Transfer, DownloadPin, Reloaded, download_attempt}
use async_gateway.Gcs.Attempts.Pins.{
  first_pin, download_attempts, Reports, download_attempts-pinned,
}
use async_gateway.Gcs.Requests.{published, replied, status_error}
use async_gateway.Gcs.Requests.Markers.{marker_in, IsPublic, run-IsPublic}

abbrev free_lease : GcsLease
free_lease = record { busy = false; released = false }

abbrev one_held : Offloader
one_held = record {
  permits = 3;
  active = 1;
  closing = false;
  executor_shutdown = false;
  due = 0;
  shutdowns = 0;
}

abbrev one_request : System
one_request = record { offloader = one_held; leases = free_lease ∷ [] }

abbrev closing_request : System
closing_request = record {
  offloader = record one_held { closing = true };
  leases = free_lease ∷ [];
}

closing_reached : Reach start closing_request
unfolding acquire_gcs_lease shutdown_gcs_offloader
closing_reached = next (next here (acquires one_held refl refl)) (closes refl)

-- The release of the last lease after the admission is closed shuts the executor down.
last_release :
    release free_lease (record one_held { closing = true })
    ≡ some (
      record free_lease { released = true },
      record {
        permits = 4;
        active = 0;
        closing = true;
        executor_shutdown = true;
        due = 1;
        shutdowns = 0;
      },
    )
unfolding release release_gcs_lease
last_release = refl

Reach-IsSafe_example : count_held closing_request.leases ≤ gcs_max_leases
Reach-IsSafe_example = (Reach-IsSafe closing_reached).0

-- The answer comes after the deadline, and a cancellation while it is cleaned up.
abbrev late : Course ℕ
late = record {
  starting = none;
  is_short = false;
  yielding = none;
  done_early = false;
  deadline = 5;
  wait = ended_at 7;
  provider = answered 42;
  draining = [];
  cleaning = 9 ∷ 11 ∷ [];
}

late_call : Calls.run true late ≡ (was_cancelled 9, 42 ∷ [])
unfolding Calls.run
late_call = refl

run-owned_example : handed_over (Calls.run true late).0 ++ (Calls.run true late).1 ≡ 42 ∷ []
run-owned_example = run-owned late

abbrev object : List ℕ
object = 7 ∷ 8 ∷ 9 ∷ []

abbrev serving : ℕ → ℕ → Answer (List ℕ)
serving start_ end_ = answered (take (end_ - start_ + 1) (drop start_ object))

download_chunks_total_example :
    (chunks : List (List ℕ)) × (e : Option Failure) × (download_chunks 4 serving 3 0
      ≡ some (chunks, e))
    × All IsChunk chunks
    × (length (joined chunks) ≤ 3)
    × (((e ≡ none) × (length (joined chunks) ≡ 3)) ⊎ ((e ≢ none) × (length (joined chunks) < 3)))
download_chunks_total_example = download_chunks_total serving 3

download_chunks-exact_example :
    (chunks : List (List ℕ)) × (download_chunks 4 serving 3 0 ≡ some (chunks, none))
    × (joined chunks ≡ object)
download_chunks-exact_example = download_chunks-exact serving object (λ start_ end_ le lt. refl)

abbrev session : Session
session = record {
  credentials = answered tt;
  refresh = answered tt;
  client = answered tt;
  bucket = answered tt;
  blob = answered tt;
  close = answered tt;
}

abbrev generation : ℕ → Reloaded
generation n = record {
  generation = int (pos n);
  size = int (pos 3);
  etag = none_value;
  crc32c = text "x";
}

-- The object is replaced between two attempts; the second reads the first generation.
abbrev attempts : List (Session × Transfer)
attempts =
    (
      session,
      record { reloaded = answered (generation 1); written = failed (service (int (pos 503))) },
    )
    ∷ (session, record { reloaded = answered (generation 2); written = answered 3 })
    ∷ []

abbrev early_pin : DownloadPin
early_pin = record { generation = 1; size = 3; etag = none; crc32c = some "x" }

second_attempt :
    download_attempts none 10 none attempts ≡ failed (service_failure 503) ∷ answered early_pin ∷ []
unfolding download_attempts download_attempt converted service_failure_for
second_attempt = refl

download_attempts-pinned_example :
    All (Reports none 10 (first_pin none attempts)) (download_attempts none 10 none attempts)
download_attempts-pinned_example = download_attempts-pinned none 10 attempts

abbrev breaker : Breaker
breaker = new_breaker 5 (whole 60) none none none none

abbrev unavailable : ℕ → Turn ℕ
unavailable n = record { entered = n; reply = replied (failed (service_failure 503)); settled = n }

abbrev exhausted : Outcome ℕ
exhausted = retries_exhausted (gateway async_gateway_error 503)

breaker_IsPlain : IsPlain none breaker
breaker_IsPlain = record {
  same_policy = refl;
  no_exhausted = refl;
  no_failed = refl;
  no_abort = refl;
}

run-unavailable : run unavailable 20 breaker ≡ some (exhausted, record breaker { failures = 1 }, 1)
unfolding run replied allows_execution is_caught should_abort is_default_abortable
    is_subclass_of_any should_retry record_failure
run-unavailable = refl

published_unavailable : published exhausted ≡ status_error 503
unfolding published
published_unavailable = refl

run-IsPublic_example : IsPublic (marker_in exhausted) (published exhausted)
run-IsPublic_example =
    run-IsPublic unavailable 20 breaker (record breaker { failures = 1 }) exhausted 1
      breaker_IsPlain (λ id. refl) run-unavailable
