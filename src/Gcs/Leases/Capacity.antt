-- ===== src/Gcs/Leases/Capacity.antt =====
-- What holds of the leases of asyncio_gateway/logic/gcs_client.py, however the requests interleave.
use async_gateway.Prelude.{
  ℕ, ◌+◌, ◌≤◌, ◌≡◌, ◌≢◌, Bool, true, false, none, List, [], ◌∷◌, ◌++◌, if◌then◌else◌, All, arith,
  subst, sym, ap,
}
use async_gateway.Gcs.Leases.{
  gcs_max_leases, acquire_gcs_lease, release_gcs_lease, shutdown_gcs_offloader, GcsLease, begin_run,
  release, System, Step, acquires, begins, drains, releases, closes, shuts, Reach, here, next,
  start,
}

abbrev pub held : GcsLease → ℕ
held l = if l.released then 0 else 1

-- The leases that are not released.
abbrev pub count_held : List GcsLease → ℕ
count_held [] = 0
count_held (l ∷ ls) = held l + count_held ls

-- A call of `run` holds a lease that is not released.
abbrev pub IsSound : GcsLease → Type 0
IsSound l = l.busy ≡ true → l.released ≡ false

abbrev once : Bool → ℕ
once b = if b then 1 else 0

pub record IsValid (s : System) : Type 0 where
  pub capacity : s.offloader.permits + s.offloader.active ≡ gcs_max_leases
  pub counted : s.offloader.active ≡ count_held s.leases
  pub shut_when_idle :
      s.offloader.executor_shutdown ≡ true → (s.offloader.closing ≡ true) × (s.offloader.active ≡ 0)
  pub idle_when_closing :
      s.offloader.closing ≡ true → s.offloader.active ≡ 0 → s.offloader.executor_shutdown ≡ true
  pub shut_once : s.offloader.due + s.offloader.shutdowns ≡ once s.offloader.executor_shutdown
  pub sound : All IsSound s.leases

count_held-append : (xs ys : List GcsLease) → count_held (xs ++ ys) ≡ count_held xs + count_held ys
count_held-append [] ys = omega arith
count_held-append (x ∷ xs) ys = omega (arith, count_held-append xs ys)

-- A lease in the middle of the list.
All-middle : (xs ys : List GcsLease) (l : GcsLease) → All IsSound (xs ++ l ∷ ys) → IsSound l
All-middle [] ys l h = h.0
All-middle (x ∷ xs) ys l h = All-middle xs ys l h.1

All-replaced :
    (xs ys : List GcsLease) (l l' : GcsLease)
    → All IsSound (xs ++ l ∷ ys)
    → IsSound l'
    → All IsSound (xs ++ l' ∷ ys)
All-replaced [] ys l l' h k = (k, h.1)
All-replaced (x ∷ xs) ys l l' h k = (h.0, All-replaced xs ys l l' h.1 k)

-- One lease is replaced by another.
count_held-replaced :
    (before after leases : List GcsLease) (l l' : GcsLease)
    → leases ≡ before ++ l ∷ after
    → count_held (before ++ l' ∷ after) + held l ≡ count_held leases + held l'
count_held-replaced before after leases l l' at = omega (
  arith,
  ap count_held at,
  count_held-append before (l ∷ after),
  count_held-append before (l' ∷ after),
)

start-IsValid : IsValid start
start-IsValid = ground arith

Step-IsValid : {s u : System} → Step s u → IsValid s → IsValid u
unfolding acquire_gcs_lease begin_run release release_gcs_lease shutdown_gcs_offloader
Step-IsValid {s} (acquires o got e) v = subst IsValid (sym e) (ground arith)
Step-IsValid {s} (begins before after l l' at free got e) v =
    let sound = All-replaced before after l l' (subst (All IsSound) at v.sound) (ground arith) in
    subst IsValid (sym e) (ground (arith, sound, count_held-replaced before after s.leases l l' at))
Step-IsValid {s} (drains before after l at e) v =
    let l' : GcsLease = record l { busy = false } in
    let sound = All-replaced before after l l' (subst (All IsSound) at v.sound) (λ held. cc) in
    subst IsValid (sym e) (ground (arith, sound, count_held-replaced before after s.leases l l' at))
Step-IsValid {s} (releases before after l l' o at free got e) v =
    let sound = All-replaced before after l l' (subst (All IsSound) at v.sound) (ground arith) in
    subst IsValid (sym e) (ground (arith, sound, count_held-replaced before after s.leases l l' at))
Step-IsValid {s} (closes e) v = subst IsValid (sym e) (ground arith)
Step-IsValid {s} (shuts n some_due e) v = subst IsValid (sym e) (ground arith)

Reach-IsValid : {s u : System} → IsValid s → Reach s u → IsValid u
Reach-IsValid v here = v
Reach-IsValid v (next r step) = Step-IsValid step (Reach-IsValid v r)

-- However requests start, call the provider, end and close the admission: at most four leases are
-- held; the executor is shut down at most once; and while a lease is held or used by a call it is not
-- shut down. Once the admission is closed and no lease is held, it is, or the call that does it is due.
pub Reach-IsSafe :
    {u : System}
    → Reach start u
    → (count_held u.leases ≤ gcs_max_leases)
      × (u.offloader.shutdowns ≤ 1)
      × (u.offloader.executor_shutdown ≡ true
          → (u.offloader.closing ≡ true) × (count_held u.leases ≡ 0))
      × (u.offloader.closing ≡ true
          → count_held u.leases ≡ 0
          → u.offloader.due + u.offloader.shutdowns ≡ 1)
      × All IsSound u.leases
Reach-IsSafe {u} r = let v = Reach-IsValid start-IsValid r in ground arith

-- The release of a lease never overruns the semaphore, whatever ran before it.
pub Reach-release_ok :
    {u : System} (before after : List GcsLease) (l : GcsLease)
    → Reach start u
    → u.leases ≡ before ++ l ∷ after
    → release l u.offloader ≢ none
unfolding release release_gcs_lease
Reach-release_ok {u} before after l r at =
    let v = Reach-IsValid start-IsValid r in
    ground (arith, ap count_held at, count_held-append before (l ∷ after))
