-- ===== src/Imports/Lifecycle.antt =====
-- The status of an import over the calls of amo.py that change it.
use pulse_crm.Prelude.{
  ℕ, ◌+◌, ◌≡◌, refl, ◌≢◌, ◌⊎◌, inl, inr, String, true, not, ◌||◌, none, List, [], arith, is_text,
  Bool-cases, Option-cases, ok, runtime_error, >>=-eq-ok, raise_if-eq-ok,
}
use pulse_crm.Imports.{
  running, paused, succeeded, failed, ImportJob, ExternalEntityMap, AmoPage, Counters, no_counts,
  ImportPageResult, ImportEntityWriter, accepts_page, pause_import, can_resume, resume_import,
  fail_import,
}
use pulse_crm.Imports.Apply.{has_duplicates, apply_entities, finished_job, apply_import_page}

-- What the status says of the other columns: a finished import has no cursor and no error, and the
-- time of its end; a failed one has its error.
pub record IsConsistent (job : ImportJob) : Type 0 where
  pub ended : job.status ≡ succeeded → job.completed_at ≢ none
  pub complete : job.status ≡ succeeded → job.cursor ≡ []
  pub clean : job.status ≡ succeeded → job.last_error ≡ none
  pub explained : job.status ≡ failed → job.last_error ≢ none

-- What a call may do to a job: nothing, or a new version with a status that the old one allows.
pub record Moves (job job' : ImportJob) : Type 0 where
  pub consistent : IsConsistent job → IsConsistent job'
  pub versioned : (job' ≡ job) ⊎ (job'.version ≡ job.version + 1)
  pub final : job.status ≡ succeeded → (job' ≡ job) ⊎ (job'.status ≡ failed)
  pub waits :
      job.status ≡ paused
      → (job'.cursor ≡ job.cursor)
        × (job'.counts ≡ job.counts)
        × ((job'.status ≡ running) ⊎ ((job'.status ≡ failed) ⊎ (job' ≡ job)))

page-Moves :
    (job : ImportJob) (page : AmoPage) (counters : Counters) (now : ℕ)
    → accepts_page job.status ≡ true
    → Moves job (finished_job job page counters now)
unfolding accepts_page
page-Moves job page counters now a = record {
  consistent = λ c. elim (Option-cases page.next_cursor) [
    | inl e ↦ record {
      ended = λ s. ground (arith, e);
      complete = λ s. ground (arith, e);
      clean = λ s. refl;
      explained = λ s. ground (arith, e);
    }
    | inr (cursor, e) ↦ record {
      ended = λ s. ground (arith, e);
      complete = λ s. ground (arith, e);
      clean = λ s. refl;
      explained = λ s. ground (arith, e);
    }
  ];
  versioned = inr refl;
  final = λ s. ground arith;
  waits = λ s. ground arith;
}

pause-Moves : (job : ImportJob) → Moves job (pause_import job)
unfolding pause_import accepts_page
pause-Moves job = elim (Bool-cases (accepts_page job.status)) [
  | inl a ↦ rw a (record {
    consistent = λ c. ground arith;
    versioned = inr refl;
    final = λ s. ground arith;
    waits = λ s. ground arith;
  })
  | inr w ↦ rw w (record {
    consistent = λ c. c;
    versioned = inl refl;
    final = λ s. inl refl;
    waits = λ s. (refl, refl, inr (inr refl));
  })
]

resume-Moves : (job job' : ImportJob) → resume_import job ≡ ok job' → Moves job job'
unfolding resume_import can_resume
resume-Moves job job' e = record {
  consistent = λ c. ground arith;
  versioned = ground arith;
  final = λ s. ground arith;
  waits = λ s. ground arith;
}

fail-Moves : (job : ImportJob) (error : String) → Moves job (fail_import job error)
unfolding fail_import
fail-Moves job error = record {
  consistent = λ c. ground arith;
  versioned = inr refl;
  final = λ s. inr refl;
  waits = λ s. (refl, refl, inr (inl refl));
}

module _ (sha256 : String → String) {S : Type 0} (writer : ImportEntityWriter S) where
  pub data ImportStep (job job' : ImportJob) : Type 0 where
    page_applied :
        (page : AmoPage) (now : ℕ) (maps maps' : List ExternalEntityMap) (crm crm' : S)
        (result : ImportPageResult)
        → apply_import_page sha256 writer job page now maps crm ≡ ok (result, job', maps', crm')
        → ImportStep job job'
    import_paused : job' ≡ pause_import job → ImportStep job job'
    import_resumed : resume_import job ≡ ok job' → ImportStep job job'
    import_failed : (error : String) → job' ≡ fail_import job error → ImportStep job job'

  -- Each of the calls of amo.py on an import (a page that is applied, a pause, a resumption, a
  -- failure) keeps its columns consistent with its status, and makes a new version if it changes the
  -- import. A finished import can only be marked as failed, and a paused one keeps its cursor and its
  -- counts: it is resumed, marked as failed or left as it is.
  pub ImportStep-Moves : (job job' : ImportJob) → ImportStep job job' → Moves job job'
  unfolding apply_import_page
  ImportStep-Moves job job' (page_applied page now maps maps' crm crm' result e) =
      let (t1, h1) =
        raise_if-eq-ok (not (accepts_page job.status))
          (runtime_error "only pending or running imports can apply a page") _ e in
      let (t2, h2) =
        raise_if-eq-ok
          (not (is_text job.entity_type page.entity_type || is_text job.entity_type "all"))
          (runtime_error "import page does not match the job entity type") _ h1 in
      let (t3, h3) =
        raise_if-eq-ok (has_duplicates page.entities)
          (runtime_error "amoCRM page contains duplicate external identifiers") _ h2 in
      let (s, ran, h4) =
        >>=-eq-ok
          (apply_entities sha256 writer job page.entity_type page.entities
            (record { maps = maps; counters = no_counts; crm = crm }))
          _ h3 in
      let done : job' ≡ finished_job job page s.counters now = ground (arith, h4) in
      rw done (page-Moves job page s.counters now (ground (arith, t1)))
  ImportStep-Moves job job' (import_paused e) = rw e (pause-Moves job)
  ImportStep-Moves job job' (import_resumed e) = resume-Moves job job' e
  ImportStep-Moves job job' (import_failed error e) = rw e (fail-Moves job error)
