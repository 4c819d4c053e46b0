-- ===== src/Gcs/Leases.antt =====
-- The capacity of the GCS client (asyncio_gateway/logic/gcs_client.py): the permits, the private
-- executor and the leases of the running requests. Every function under the state lock is one step; the
-- call that shuts the executor down is made after the lock is left, so it is a step of its own.
pub mod Capacity
use async_gateway.Prelude.{
  ℕ, ◌+◌, ◌-◌, ◌<◌, ◌≡◌, Bool, true, false, not, ◌&&◌, Option, none, some, List, [], ◌∷◌, ◌++◌, leb,
  eqb, if◌then◌else◌,
}

abbrev pub gcs_max_leases : ℕ
gcs_max_leases = 4

-- `permits` is what the bounded semaphore has left; `due` counts the decided calls of
-- `_GCS_EXECUTOR.shutdown`, and `shutdowns` those that were made.
pub record Offloader : Type 0 where
  pub permits : ℕ
  pub active : ℕ
  pub closing : Bool
  pub executor_shutdown : Bool
  pub due : ℕ
  pub shutdowns : ℕ

abbrev pub initial : Offloader
initial = record {
  permits = gcs_max_leases;
  active = 0;
  closing = false;
  executor_shutdown = false;
  due = 0;
  shutdowns = 0;
}

-- `none` is a `GcsCapacityError`.
unfoldable pub acquire_gcs_lease : Offloader → Option Offloader
acquire_gcs_lease o =
    if o.closing
    then none
    else if eqb o.permits 0
    then none
    else some (record o { permits = o.permits - 1; active = o.active + 1 })

-- The end of both critical sections that may shut the executor down.
unfoldable pub shut_if_idle : Offloader → Offloader
shut_if_idle o =
    if o.closing && eqb o.active 0 && not o.executor_shutdown
    then record o { executor_shutdown = true; due = o.due + 1 }
    else o

-- `none` is the `ValueError` of a bounded semaphore that is released too often.
unfoldable pub release_gcs_lease : Offloader → Option Offloader
unfolding shut_if_idle
release_gcs_lease o =
    if leb gcs_max_leases o.permits
    then none
    else some (shut_if_idle (record o { permits = o.permits + 1; active = o.active - 1 }))

unfoldable pub shutdown_gcs_offloader : Offloader → Offloader
unfolding shut_if_idle
shutdown_gcs_offloader o = shut_if_idle (record o { closing = true })

-- A lease; `busy` is its operation lock, held by a call of `run`.
pub record GcsLease : Type 0 where
  pub busy : Bool
  pub released : Bool

-- `run` up to the provider's call, the lock being free; `none` is a `GcsCapacityError`.
unfoldable pub begin_run : GcsLease → Option GcsLease
begin_run l = if l.released then none else some (record l { busy = true })

-- `release`, the lock being free.
unfoldable pub release : GcsLease → Offloader → Option (GcsLease × Offloader)
release l o = if l.released then some (l, o) else elim (release_gcs_lease o) [
  | none ↦ none
  | some o' ↦ some (record l { released = true }, o')
]

pub record System : Type 0 where
  pub offloader : Offloader
  pub leases : List GcsLease

pub data Step (s u : System) : Type 0 where
  acquires :
      (o : Offloader)
      → acquire_gcs_lease s.offloader ≡ some o
      → u ≡ record { offloader = o; leases = record { busy = false; released = false } ∷ s.leases }
      → Step s u
  begins :
      (before after : List GcsLease) (l l' : GcsLease)
      → s.leases ≡ before ++ l ∷ after
      → l.busy ≡ false
      → begin_run l ≡ some l'
      → u ≡ record s { leases = before ++ l' ∷ after }
      → Step s u
  drains :
      (before after : List GcsLease) (l : GcsLease)
      → s.leases ≡ before ++ l ∷ after
      → u ≡ record s { leases = before ++ record l { busy = false } ∷ after }
      → Step s u
  releases :
      (before after : List GcsLease) (l l' : GcsLease) (o : Offloader)
      → s.leases ≡ before ++ l ∷ after
      → l.busy ≡ false
      → release l s.offloader ≡ some (l', o)
      → u ≡ record { offloader = o; leases = before ++ l' ∷ after }
      → Step s u
  closes : u ≡ record s { offloader = shutdown_gcs_offloader s.offloader } → Step s u
  shuts :
      (n : ℕ)
      → s.offloader.due ≡ n + 1
      → u ≡ record s {
        offloader = record s.offloader { due = n; shutdowns = s.offloader.shutdowns + 1 };
      }
      → Step s u

pub data Reach (s : System) : System → Type 0 where
  here : Reach s s
  next : {t u : System} → Reach s t → Step t u → Reach s u

abbrev pub start : System
start = record { offloader = initial; leases = [] }
