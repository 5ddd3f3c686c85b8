-- ===== src/Server/Enqueueing.antt =====
-- `EnqueueJob.execute` and `ScanInputFolder.execute`: one job for each file, and consistent stores.
use vshift.Base.{
  ◌≡◌, refl, sym, ap, ◌∙◌, subst, ℕ, ◌≤◌, Bool, true, false, Option, none, some, List, [], ◌∷◌,
  arith, Bool-cases, inl, inr, nat_eq,
}
use vshift.Base.Exec.{ok, pure, ◌>>=◌}
use vshift.Base.Ensures.{
  Ensures, Returns-anything, Ensures-pure, Ensures-lift, Ensures-gets, Ensures-call, Ensures-if,
  Ensures-modify_three, Ensures-bind,
}
use vshift.Base.FilePath.{FilePath}
use vshift.Input.{ProbedInput}
use vshift.Config.Settings.{VshiftConfig}
use vshift.Job.{pending, TranscodeJob, job_state_eq}
use vshift.Ports.{Stores, MediaProber, FileScanner}
use vshift.Ports.Contract.{View, IsLawful, put_job, put_queue}
use vshift.Lifecycle.{IsWellFormed, IsConsistent}
use vshift.Lifecycle.Preservation.{contains-snoc, put_job-IsConsistent, put_queue-IsConsistent}
use vshift.Server.{
  ProfileMatch, new_job, enqueue_job, enqueue_found, probe_input_file, scan_candidates,
  scan_input_folder,
}

abbrev pub put_processed : (FilePath → Bool) → View → View
put_processed p v = record v { processed = p }

-- Nothing of a consistent view depends on the files that count as processed.
processed-IsConsistent :
    (max_retries : ℕ) (v : View) (p : FilePath → Bool)
    → IsConsistent max_retries v
    → IsConsistent max_retries (put_processed p v)
processed-IsConsistent max_retries v p c = record {
  keyed = c.keyed;
  well_formed = c.well_formed;
  queued = c.queued;
  buried = c.buried;
}

new_job-IsWellFormed :
    (max_retries : ℕ) (config : VshiftConfig) (probed : ProbedInput) (found : ProfileMatch)
    (id now : ℕ)
    → 1 ≤ max_retries
    → IsWellFormed max_retries (new_job config probed found id now)
new_job-IsWellFormed max_retries config probed found id now h = ground arith

module _ {W : Type 0} (P : Stores W) (view : W → View) (L : IsLawful P view) where
  module _ (config : VshiftConfig) (probed : ProbedInput) (found : ProfileMatch) (w : W) where
    -- the job that an enqueue in the state `w` makes
    abbrev pub made : TranscodeJob
    made = let (id, w') = P.uuid4 w in new_job config probed found id (P.now w').0

    -- A file that counts as processed makes no job, and nothing changes.
    pub enqueue_job-skips :
        (view w).processed probed.path ≡ true → enqueue_job P config probed found w ≡ (ok none, w)
    unfolding enqueue_job ◌>>=◌
    enqueue_job-skips h = ground (arith, L.is_processed_lem probed.path w)

    -- Any other file makes one pending job, which is stored, waits at the end of the queue, and
    -- makes the file count as processed.
    pub enqueue_job-adds :
        (view w).processed probed.path ≡ false
        → (p : FilePath → Bool) × (p probed.path ≡ true)
          × ((enqueue_job P config probed found w).0 ≡ ok (some made))
          × (view (enqueue_job P config probed found w).1
              ≡ put_queue made.id (put_processed p (put_job made (view w))))
    unfolding enqueue_job ◌>>=◌
    enqueue_job-adds h =
        let (p, marked, mine, others) = L.mark_processed_lem probed.path made.id saved in
        rw (L.is_processed_lem probed.path w, h)
          (
            p,
            mine,
            refl,
            L.enqueue_lem made.id _ ∙ ap (put_queue made.id) (marked ∙ ap (put_processed p) stored),
          )
      where
        saved : W
        saved = P.save made (P.now (P.uuid4 w).1).1

        stored : view saved ≡ put_job made (view w)
        stored = simp (L.save_lem, L.now_lem, L.uuid4_lem)

  module _ (config config' : VshiftConfig) (probed : ProbedInput)
      (found found' : ProfileMatch) where
    skips-after :
        (w w' : W)
        → (view w').processed probed.path ≡ true
        → w' ≡ (enqueue_job P config probed found w).1
        → let w'' = (enqueue_job P config probed found w).1 in
          enqueue_job P config' probed found' w'' ≡ (ok none, w'')
    skips-after w w' h e =
        enqueue_job-skips config' probed found' _
          (subst (λ u. (view u).processed probed.path ≡ true) e h)

    -- However often a file is found, it makes one job: after an enqueue, which made one or skipped
    -- the file, the next one makes none and changes nothing.
    pub enqueue_job-once :
        (w : W)
        → let w' = (enqueue_job P config probed found w).1 in
          enqueue_job P config' probed found' w' ≡ (ok none, w')
    enqueue_job-once w = elim (Bool-cases ((view w).processed probed.path)) [
      | inl again ↦
          skips-after w w again
            (sym (ap (λ r. r.1) (enqueue_job-skips config probed found w again)))
      | inr fresh ↦
          let (p, mine, made_it, after) = enqueue_job-adds config probed found w fresh in
          skips-after w _ (ap (λ v. v.processed probed.path) after ∙ mine) refl
    ]

  module _ (max_retries : ℕ) (positive : 1 ≤ max_retries) where
    abbrev Inv : W → Type 0
    Inv w = IsConsistent max_retries (view w)

    writes_keep :
        (job : TranscodeJob) (path : FilePath) (w : W)
        → IsWellFormed max_retries job
        → job.state ≡ pending
        → Inv w
        → Inv (P.enqueue job.id (P.mark_processed path job.id (P.save job w)))
    writes_keep job path w h waits c =
        let (p, marked, mine, others) = L.mark_processed_lem path job.id (P.save job w) in
        rw (L.enqueue_lem, marked, L.save_lem)
          (processed-IsConsistent max_retries (put_job job (put_queue job.id (view w))) p (
            put_job-IsConsistent max_retries (put_queue job.id (view w))
              (put_queue-IsConsistent max_retries (view w) c job.id) job h
              (λ _. contains-snoc (view w).queue job.id) (λ f. cc)))

    enqueue_job-Ensures :
        (config : VshiftConfig) (probed : ProbedInput) (found : ProfileMatch)
        → Ensures Inv (enqueue_job P config probed found) (λ _. Unit)
    unfolding enqueue_job
    enqueue_job-Ensures config probed found =
        Ensures-bind (λ _. Unit) _ _ _ (Ensures-gets _ (λ w c. tt))
          λ processed _.
            Ensures-if processed (pure none) _ (λ again. Ensures-pure none tt)
              λ fresh.
                Ensures-bind (λ _. Unit) _ _ _
                  (Ensures-call P.uuid4 (λ w c. rw (L.uuid4_lem w) c) (λ w c. tt))
                  λ id _.
                    Ensures-bind (λ _. Unit) _ _ _
                      (Ensures-call P.now (λ w c. rw (L.now_lem w) c) (λ w c. tt))
                      λ now _.
                        let job = new_job config probed found id now in
                        Ensures-modify_three _ _ _ _
                          (λ w.
                            writes_keep job probed.path w
                              (new_job-IsWellFormed max_retries config probed found id now positive)
                              refl)
                          (Ensures-pure _ tt)

    module _ (config : VshiftConfig) (scan_once : FileScanner W) (probe : MediaProber W)
        (scan_keeps : (dir : FilePath) → Ensures Inv (scan_once dir) (λ _. Unit))
        (probe_keeps : (path : FilePath) → Ensures Inv (probe path) (λ _. Unit)) where
      enqueue_found-Ensures :
          (probed : ProbedInput) (found : Option ProfileMatch)
          → Ensures Inv (enqueue_found P config probed found) (λ _. Unit)
      unfolding enqueue_found
      enqueue_found-Ensures probed none = Ensures-pure _ tt
      enqueue_found-Ensures probed (some found) = enqueue_job-Ensures config probed found

      probe_input_file-Ensures :
          (candidate : ProbedInput) → Ensures Inv (probe_input_file probe candidate) (λ _. Unit)
      unfolding probe_input_file
      probe_input_file-Ensures candidate =
          Ensures-bind (λ _. Unit) _ _ _ (probe_keeps candidate.path)
            (λ probed _. Ensures-pure _ tt)

      scan_candidates-Ensures :
          (candidates : List ProbedInput)
          → Ensures Inv (scan_candidates P scan_once probe config candidates) (λ _. Unit)
      unfolding scan_candidates
      scan_candidates-Ensures [] = Ensures-pure _ tt
      scan_candidates-Ensures (candidate ∷ candidates) =
          Ensures-bind (λ _. Unit) _ _ _ (probe_input_file-Ensures candidate)
            λ probed _.
              Ensures-bind (λ _. Unit) _ _ _ (Ensures-lift _ (Returns-anything _))
                λ found _.
                  Ensures-bind (λ _. Unit) _ _ _ (enqueue_found-Ensures probed found)
                    λ job _.
                      Ensures-bind (λ _. Unit) _ _ _ (scan_candidates-Ensures candidates)
                        (λ enqueued _. Ensures-pure _ tt)

      -- A scan keeps the stores consistent, also one that a probe cuts short, if the scanner and
      -- the prober do and a job has at least one attempt.
      pub scan_input_folder-IsConsistent :
          (input_dir : Option FilePath) (w : W)
          → IsConsistent max_retries (view w)
          → IsConsistent max_retries
              (view (scan_input_folder P scan_once probe config input_dir w).1)
      unfolding scan_input_folder
      scan_input_folder-IsConsistent input_dir w c =
          (Ensures-bind (λ _. Unit) (λ _. Unit) _ _ (scan_keeps _)
              (λ candidates _. scan_candidates-Ensures candidates)).keeps
            w c
