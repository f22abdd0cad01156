-- ===== src/Http/Accepted.antt =====
-- trailhttp/spool.go: the jobs that the spooler accepts, and those that it logs.
use trail.Prelude.{
  ℕ, ◌≤◌, ◌≡◌, refl, sym, ap, ◌∙◌, true, List, [], ◌∷◌, ◌++◌, map, append_assoc, append-nil, Text,
  length, length-append, arith, Bool-cases, inl, inr, if◌then◌else◌,
}
use trail.Event.Options.{EventOption}
use trail.Http.{SpoolJob}
use trail.Http.Spool.{
  Puts, Spooler, empty_spooler, SpoolStep, enqueue_job, take_job, close_queue, job_options, accepts,
  enqueue, take_next, step, run, drain, close,
}

abbrev job_of : SpoolJob × List EventOption → SpoolJob
job_of entry = entry.0

abbrev pub logged_jobs : Spooler → List SpoolJob
logged_jobs s = map job_of s.logged

-- The jobs that were logged, and after them those in the queue.
abbrev taken : Spooler → List SpoolJob
taken s = logged_jobs s ++ s.jobs

map-append_one :
    (entries : List (SpoolJob × List EventOption)) (entry : SpoolJob × List EventOption)
    → map job_of (entries ++ entry ∷ []) ≡ map job_of entries ++ job_of entry ∷ []
map-append_one [] entry = refl
map-append_one (e ∷ entries) entry =
    ap (λ (jobs : List SpoolJob). job_of e ∷ jobs) (map-append_one entries entry)

module _ (capacity : ℕ) (compression : Text) where
  -- The jobs that `enqueue` accepts in a run, in order.
  unfoldable pub accepted : List SpoolStep → Spooler → List SpoolJob
  accepted [] s = []
  accepted (enqueue_job job ∷ steps) s =
      let rest = accepted steps (enqueue capacity compression job s) in
      if accepts capacity compression s then job ∷ rest else rest
  accepted (take_job puts ∷ steps) s = accepted steps (take_next capacity compression puts s.jobs s)
  accepted (close_queue ∷ steps) s = accepted steps (record s { closed = true })

  take_next-taken :
      (puts : Puts) (jobs : List SpoolJob) (s : Spooler)
      → s.jobs ≡ jobs
      → taken (take_next capacity compression puts jobs s) ≡ taken s
  unfolding take_next
  take_next-taken puts [] s e = refl
  take_next-taken puts (job ∷ jobs) s e =
      rw (map-append_one s.logged (job, job_options compression puts job), e)
        (append_assoc (logged_jobs s) (job ∷ []) jobs)

  enqueue-taken :
      (job : SpoolJob) (s : Spooler) (rest : List SpoolJob)
      → taken (enqueue capacity compression job s) ++ rest
        ≡ taken s ++ (if accepts capacity compression s then job ∷ rest else rest)
  unfolding enqueue
  enqueue-taken job s rest = elim (Bool-cases (accepts capacity compression s)) [
    | inl room ↦ rw room (
        ap (λ (jobs : List SpoolJob). jobs ++ rest)
          (sym (append_assoc (logged_jobs s) s.jobs (job ∷ [])))
        ∙ append_assoc (taken s) (job ∷ []) rest)
    | inr full ↦ rw full refl
  ]

  run-taken :
      (steps : List SpoolStep) (s : Spooler)
      → taken (run capacity compression steps s) ≡ taken s ++ accepted steps s
  unfolding run step accepted
  run-taken [] s = sym (append-nil (taken s))
  run-taken (enqueue_job job ∷ steps) s =
      run-taken steps (enqueue capacity compression job s) ∙ enqueue-taken job s _
  run-taken (take_job puts ∷ steps) s =
      run-taken steps (take_next capacity compression puts s.jobs s)
      ∙ ap
          (λ (jobs : List SpoolJob).
            jobs ++ accepted steps (take_next capacity compression puts s.jobs s))
          (take_next-taken puts s.jobs s refl)
  run-taken (close_queue ∷ steps) s = run-taken steps (record s { closed = true })

  drain-logged :
      (puts : Puts) (jobs : List SpoolJob) (s : Spooler)
      → logged_jobs (drain capacity compression puts jobs s) ≡ logged_jobs s ++ jobs
  unfolding drain take_next
  drain-logged puts [] s = sym (append-nil (logged_jobs s))
  drain-logged puts (job ∷ jobs) s =
      drain-logged puts jobs _
      ∙ ap (λ (l : List SpoolJob). l ++ jobs)
          (map-append_one s.logged (job, job_options compression puts job))
      ∙ append_assoc (logged_jobs s) (job ∷ []) jobs

  take_next-bounded :
      (puts : Puts) (jobs : List SpoolJob) (s : Spooler)
      → s.jobs ≡ jobs
      → length s.jobs ≤ capacity
      → length (take_next capacity compression puts jobs s).jobs ≤ capacity
  unfolding take_next
  take_next-bounded puts [] s e h = h
  take_next-bounded puts (job ∷ jobs) s e h = omega (arith, h, ap length e)

  pub run-bounded :
      (steps : List SpoolStep) (s : Spooler)
      → length s.jobs ≤ capacity
      → length (run capacity compression steps s).jobs ≤ capacity
  unfolding run step
  run-bounded [] s h = h
  run-bounded (enqueue_job job ∷ steps) s h =
      run-bounded steps _
        (unfold enqueue accepts in ground (arith, h, length-append s.jobs (job ∷ [])))
  run-bounded (take_job puts ∷ steps) s h =
      run-bounded steps _ (take_next-bounded puts s.jobs s refl h)
  run-bounded (close_queue ∷ steps) s h = run-bounded steps _ h

  -- After any sequence of enqueues, of jobs taken by the goroutine and of closings, once Close has
  -- returned, the jobs that were logged are exactly those that enqueue accepted, each once and in
  -- their order.
  pub close-accepted :
      (steps : List SpoolStep) (puts : Puts)
      → logged_jobs (close capacity compression puts (run capacity compression steps empty_spooler))
        ≡ accepted steps empty_spooler
  unfolding close
  close-accepted steps puts = drain-logged puts _ _ ∙ run-taken steps empty_spooler
