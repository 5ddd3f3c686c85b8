-- ===== src/Server/Capacity.antt =====
-- `EnsureWorkerCapacity.execute`: how many worker pods it launches.
use vshift.Base.{
  ◌⊎◌, ◌≡◌, refl, ℕ, zero, suc, ◌+◌, ◌-◌, ◌≤◌, String, Bool, true, false, List, arith, min, length,
  inl, inr,
}
use vshift.Base.Exec.{Error, Result, ok, err, ◌>>=◌}
use vshift.Ports.{Stores, WorkerPodLauncher}
use vshift.Server.{launch_workers, ensure_worker_capacity}

-- What is relied on in a launcher: it counts the active pods, a launch that returns adds one of
-- them, and no launch adds more than one.
pub record Counts {W : Type 0} (launcher : WorkerPodLauncher W) (pods : W → ℕ) : Type 0 where
  pub count_keeps : (w : W) → pods (launcher.count_active_workers w).1 ≡ pods w
  pub count_exact : (w : W) (n : ℕ) → (launcher.count_active_workers w).0 ≡ ok n → n ≡ pods w
  pub launch_adds :
      (w : W) (pod : String)
      → (launcher.launch_worker w).0 ≡ ok pod
      → pods (launcher.launch_worker w).1 ≡ pods w + 1
  pub launch_bounded : (w : W) → pods (launcher.launch_worker w).1 ≤ pods w + 1

pub Result-cases :
    {A : Type 0} (r : Result A) → ((a : A) × (r ≡ ok a)) ⊎ ((e : Error) × (r ≡ err e))
Result-cases (ok a) = inl (a, refl)
Result-cases (err e) = inr (e, refl)

module _ {W : Type 0} (P : Stores W) (launcher : WorkerPodLauncher W) (pods : W → ℕ)
    (C : Counts launcher pods) where
  launch_workers-bounded : (n : ℕ) (w : W) → pods (launch_workers P launcher n w).1 ≤ pods w + n
  unfolding launch_workers ◌>>=◌
  launch_workers-bounded zero w = omega arith
  launch_workers-bounded (suc n) w = elim (Result-cases (launcher.launch_worker w).0) [
    | inl (pod, e) ↦
        elim (Result-cases (launch_workers P launcher n (launcher.launch_worker w).1).0) [
          | inl (pods', e') ↦
              ground
                (arith, C.launch_bounded w, launch_workers-bounded n (launcher.launch_worker w).1)
          | inr (x, e') ↦
              ground
                (arith, C.launch_bounded w, launch_workers-bounded n (launcher.launch_worker w).1)
        ]
    | inr (x, e) ↦ ground (arith, C.launch_bounded w)
  ]

  launch_workers-adds :
      (n : ℕ) (w : W) (launched : List String)
      → (launch_workers P launcher n w).0 ≡ ok launched
      → (length launched ≡ n) × (pods (launch_workers P launcher n w).1 ≡ pods w + n)
  unfolding launch_workers ◌>>=◌
  launch_workers-adds zero w launched e = ground arith
  launch_workers-adds (suc n) w launched e = elim (Result-cases (launcher.launch_worker w).0) [
    | inl (pod, f) ↦
        elim (Result-cases (launch_workers P launcher n (launcher.launch_worker w).1).0) [
          | inl (others, f') ↦ ground (
            arith,
            C.launch_adds w pod f,
            launch_workers-adds n (launcher.launch_worker w).1 others f',
          )
          | inr (x, f') ↦ absurd (ground arith)
        ]
    | inr (x, f) ↦ absurd (ground arith)
  ]

  module _ (max_pods : ℕ) (w : W) where
    -- A pass over an enabled launcher and a queue with jobs, which does not raise, launches just as
    -- many pods as are missing: then there are as many as jobs wait, up to the limit, or as many as
    -- there were, if those are more.
    pub ensure_worker_capacity-fills :
        (launched : List String)
        → 1 ≤ P.depth w
        → (ensure_worker_capacity P launcher true max_pods w).0 ≡ ok launched
        → (length launched ≡ min (P.depth w) max_pods - pods w)
          × (pods (ensure_worker_capacity P launcher true max_pods w).1
              ≡ pods w + (min (P.depth w) max_pods - pods w))
    unfolding ensure_worker_capacity ◌>>=◌
    ensure_worker_capacity-fills launched waiting e =
        elim (Result-cases (launcher.count_active_workers w).0) [
          | inl (active, f) ↦ ground (
            arith,
            C.count_exact w active f,
            C.count_keeps w,
            launch_workers-adds (min (P.depth w) max_pods - active)
                (launcher.count_active_workers w).1 launched,
          )
          | inr (x, f) ↦ absurd (ground arith)
        ]

    -- No pass, whether it returns or raises on the way, brings the pods above the limit, unless
    -- they were above it, and then it adds none; a disabled one and an empty queue add none.
    pub ensure_worker_capacity-bounded :
        (enabled : Bool)
        → let after = pods (ensure_worker_capacity P launcher enabled max_pods w).1 in
          (after ≤ pods w) ⊎ (after ≤ min (P.depth w) max_pods)
    unfolding ensure_worker_capacity ◌>>=◌
    ensure_worker_capacity-bounded false = inl (omega arith)
    ensure_worker_capacity-bounded true = elim (Result-cases (launcher.count_active_workers w).0) [
      | inl (active, f) ↦ ground (
        arith,
        C.count_exact w active f,
        C.count_keeps w,
        launch_workers-bounded (min (P.depth w) max_pods - active)
            (launcher.count_active_workers w).1,
      )
      | inr (x, f) ↦ ground (arith, C.count_keeps w)
    ]
