-- ===== src/Api/Pages.antt =====
-- The pages that `list_jobs` makes over all states
-- (src/vshift/infrastructure/api/job_queries.py).
use vshift.Base.{
  ◌≡◌, refl, sym, ◌∙◌, subst, ◌⊎◌, ap, inl, inr, ℕ, zero, suc, ◌+◌, ◌≤◌, Bool, true, none, List, [],
  ◌∷◌, ◌++◌, arith, All-take, Holds, Holds-append, Holds-append_left, Holds-append_right,
  Bool-cases, length, take, drop, if◌then◌else◌,
}
use native.Mathlib.Numerals.{unary_clauses}
use vshift.Base.Sorting.{sorted, insert_sorted, IsSorted, IsPreorder, sorted-IsSorted}
use vshift.Job.{JobState, pending, claimed, processing, completed, failed, TranscodeJob}
use vshift.Ports.{Stores}
use vshift.Api.{newest_first, all_jobs, list_jobs}

module _ (before : TranscodeJob → TranscodeJob → Bool) where
  IsSorted-drop :
      (n : ℕ) (jobs : List TranscodeJob) → IsSorted before jobs → IsSorted before (drop n jobs)
  IsSorted-drop zero jobs h = h
  IsSorted-drop (suc n) [] h = h
  IsSorted-drop (suc n) (job ∷ jobs) h = IsSorted-drop n jobs h.1

  IsSorted-take :
      (n : ℕ) (jobs : List TranscodeJob) → IsSorted before jobs → IsSorted before (take n jobs)
  IsSorted-take zero jobs h = tt
  IsSorted-take (suc n) [] h = tt
  IsSorted-take (suc n) (job ∷ jobs) h =
      (All-take (λ y. before job y ≡ true) n jobs h.0, IsSorted-take n jobs h.1)

  Holds-insert_sorted :
      (a x : TranscodeJob) (ys : List TranscodeJob)
      → (a ≡ x) ⊎ Holds a ys
      → Holds a (insert_sorted before x ys)
  Holds-insert_sorted a x [] h = h
  Holds-insert_sorted a x (y ∷ ys) h = elim (Bool-cases (before x y)) [
    | inl e ↦ rw e h
    | inr e ↦ rw e (elim h [
      | inl here ↦ inr (Holds-insert_sorted a x ys (inl here))
      | inr (inl here) ↦ inl here
      | inr (inr later) ↦ inr (Holds-insert_sorted a x ys (inr later))
    ])
  ]

  insert_sorted-Holds :
      (a x : TranscodeJob) (ys : List TranscodeJob)
      → Holds a (insert_sorted before x ys)
      → (a ≡ x) ⊎ Holds a ys
  insert_sorted-Holds a x [] h = h
  insert_sorted-Holds a x (y ∷ ys) h = elim (Bool-cases (before x y)) [
    | inl e ↦ subst (λ b. Holds a (if b then x ∷ y ∷ ys else y ∷ insert_sorted before x ys)) e h
    | inr e ↦
        elim (subst (λ b. Holds a (if b then x ∷ y ∷ ys else y ∷ insert_sorted before x ys)) e h) [
          | inl here ↦ inr (inl here)
          | inr later ↦ elim (insert_sorted-Holds a x ys later) [
            | inl here ↦ inl here
            | inr k ↦ inr (inr k)
          ]
        ]
  ]

  Holds-sorted :
      (a : TranscodeJob) (xs : List TranscodeJob) → Holds a xs → Holds a (sorted before xs)
  unfolding sorted
  Holds-sorted a [] h = h
  Holds-sorted a (x ∷ xs) (inl e) = Holds-insert_sorted a x (sorted before xs) (inl e)
  Holds-sorted a (x ∷ xs) (inr h) =
      Holds-insert_sorted a x (sorted before xs) (inr (Holds-sorted a xs h))

  sorted-Holds :
      (a : TranscodeJob) (xs : List TranscodeJob) → Holds a (sorted before xs) → Holds a xs
  unfolding sorted
  sorted-Holds a [] h = h
  sorted-Holds a (x ∷ xs) h = elim (insert_sorted-Holds a x (sorted before xs) h) [
    | inl e ↦ inl e
    | inr k ↦ inr (sorted-Holds a xs k)
  ]

length-take : (n : ℕ) (jobs : List TranscodeJob) → length (take n jobs) ≤ n
length-take zero jobs = omega arith
length-take (suc n) [] = omega arith
length-take (suc n) (job ∷ jobs) = omega (arith, length-take n jobs)

Holds-take :
    (a : TranscodeJob) (n : ℕ) (jobs : List TranscodeJob) → Holds a (take n jobs) → Holds a jobs
Holds-take a zero jobs h = absurd h
Holds-take a (suc n) [] h = h
Holds-take a (suc n) (job ∷ jobs) (inl e) = inl e
Holds-take a (suc n) (job ∷ jobs) (inr h) = inr (Holds-take a n jobs h)

Holds-drop :
    (a : TranscodeJob) (n : ℕ) (jobs : List TranscodeJob) → Holds a (drop n jobs) → Holds a jobs
Holds-drop a zero jobs h = h
Holds-drop a (suc n) [] h = h
Holds-drop a (suc n) (job ∷ jobs) h = inr (Holds-drop a n jobs h)

take-length : (jobs : List TranscodeJob) → take (length jobs) jobs ≡ jobs
take-length [] = refl
take-length (job ∷ jobs) = ap (λ js. job ∷ js) (take-length jobs)

zero_add : (n : ℕ) → 0 + n ≡ n
zero_add n = omega arith

suc_add : (m n : ℕ) → suc m + n ≡ suc (m + n)
suc_add m n = omega arith

drop-add : (m n : ℕ) (jobs : List TranscodeJob) → drop (m + n) jobs ≡ drop n (drop m jobs)
drop-add zero n jobs = ap (λ k. drop k jobs) (zero_add n)
drop-add (suc m) zero [] = simp unary_clauses refl
drop-add (suc m) (suc n) [] = simp unary_clauses refl
drop-add (suc m) n (job ∷ jobs) = ap (λ k. drop k (job ∷ jobs)) (suc_add m n) ∙ drop-add m n jobs

take-add :
    (m n : ℕ) (jobs : List TranscodeJob) → take m jobs ++ take n (drop m jobs) ≡ take (m + n) jobs
take-add zero n jobs = ap (λ k. take k jobs) (sym (zero_add n))
take-add (suc m) zero [] = simp unary_clauses refl
take-add (suc m) (suc n) [] = simp unary_clauses refl
take-add (suc m) n (job ∷ jobs) =
    ap (λ js. job ∷ js) (take-add m n jobs) ∙ ap (λ k. take k (job ∷ jobs)) (sym (suc_add m n))

newest_first-IsPreorder : IsPreorder newest_first
newest_first-IsPreorder = record {
  total = λ x y h. ground arith;
  trans = λ x y z h k. ground arith;
}

module _ {W : Type 0} (P : Stores W) (w : W) where
  all_jobs-Holds :
      (a : TranscodeJob) (states : List JobState)
      → Holds a (all_jobs P states w)
      → (s : JobState) × Holds a (P.list_by_state s 1000 0 w)
  unfolding all_jobs
  all_jobs-Holds a [] h = absurd h
  all_jobs-Holds a (s ∷ states) h =
      elim (Holds-append a (P.list_by_state s 1000 0 w) (all_jobs P states w) h) [
        | inl here ↦ (s, here)
        | inr later ↦ all_jobs-Holds a states later
      ]

  Holds-all_jobs :
      (a : TranscodeJob) (s : JobState) (states : List JobState)
      → Holds s states
      → Holds a (P.list_by_state s 1000 0 w)
      → Holds a (all_jobs P states w)
  unfolding all_jobs
  Holds-all_jobs a s [] none_left h = absurd none_left
  Holds-all_jobs a s (t ∷ states) (inl e) h =
      Holds-append_left a _ _ (subst (λ u. Holds a (P.list_by_state u 1000 0 w)) e h)
  Holds-all_jobs a s (t ∷ states) (inr later) h =
      Holds-append_right a _ _ (Holds-all_jobs a s states later h)

  abbrev states : List JobState
  states = pending ∷ claimed ∷ processing ∷ completed ∷ failed ∷ []

  every_state : (s : JobState) → Holds s states
  every_state pending = inl refl
  every_state claimed = inr (inl refl)
  every_state processing = inr (inr (inl refl))
  every_state completed = inr (inr (inr (inl refl)))
  every_state failed = inr (inr (inr (inr (inl refl))))

  -- The pages over all states: each holds at most `limit` jobs, the newest first; a page and the one
  -- that begins where it ends are together the page of both lengths; every job that the store
  -- returns for some state, of which it is asked for 1000 each, stands on a page that begins at 0
  -- and is long enough; and a page holds no other jobs.
  pub list_jobs-pages :
      (limit offset : ℕ)
      → let jobs = list_jobs P none limit offset w in
        (length jobs ≤ limit)
        × IsSorted newest_first jobs
        × ((more : ℕ)
            → jobs ++ list_jobs P none more (offset + limit) w
              ≡ list_jobs P none (limit + more) offset w)
        × ((s : JobState) (job : TranscodeJob)
            → Holds job (P.list_by_state s 1000 0 w)
            → (long : ℕ) × Holds job (list_jobs P none long 0 w))
        × ((job : TranscodeJob)
            → Holds job jobs
            → (s : JobState) × Holds job (P.list_by_state s 1000 0 w))
  unfolding list_jobs
  list_jobs-pages limit offset =
      let ordered = sorted newest_first (all_jobs P states w) in
      (
        length-take limit (drop offset ordered),
        IsSorted-take newest_first limit (drop offset ordered) (
            IsSorted-drop newest_first offset ordered
              (sorted-IsSorted newest_first newest_first-IsPreorder (all_jobs P states w))),
        λ more. rw (drop-add offset limit ordered) (take-add limit more (drop offset ordered)),
        λ s job h. (
          length ordered,
          subst (Holds job) (sym (take-length ordered)) (
              Holds-sorted newest_first job (all_jobs P states w)
                (Holds-all_jobs job s states (every_state s) h)),
        ),
        λ job h. all_jobs-Holds job states (
            sorted-Holds newest_first job (all_jobs P states w)
              (Holds-drop job offset ordered (Holds-take job limit (drop offset ordered) h))),
      )
