-- ===== src/Pipelines/Kept.antt =====
-- What the deletions keep: an open stage in the pipeline, and an active pipeline in the workspace.
use pulse_crm.Prelude.Table.Laws.{find?-test}
use pulse_crm.Prelude.Table.Members.{Distinct}
use pulse_crm.Prelude.Table.Counts.{count-key-le}
use pulse_crm.Prelude.{
  ℕ, ◌+◌, ◌≤◌, ◌≡◌, refl, String, Bool, true, false, not, none, some, List, [], ◌∷◌, All, arith,
  leb, ◌==◌, ==_iff, Bool-cases, inl, inr, count, delete, ok, http, >>=-eq-ok, raise_if-eq-ok,
  require-eq-ok,
}
use pulse_crm.Access.{Context}
use pulse_crm.Pipelines.{
  is_open, Stage, Board, version_conflict, stage_not_found, ensure_pipeline, ensure_stage,
}
use pulse_crm.Pipelines.Deletion.{is_used, is_open_of, delete_stage}
use pulse_crm.Pipelines.References.{stage_references}

-- Deleting at most one row costs a count at most one.
count-delete {ℓ} :
    {A : Type ℓ} (q p : A → Bool) (xs : List A) → count q xs ≤ count q (delete p xs) + count p xs
unfolding count delete
count-delete q p [] = omega arith
count-delete q p (x ∷ xs) = elim (Bool-cases (p x)) [
  | inl e ↦ rw e (ground (arith, count-delete q p xs))
  | inr e ↦ rw e (ground (arith, count-delete q p xs))
]

delete-All_miss {ℓ} :
    {A : Type ℓ} (p : A → Bool) (xs : List A) → All (λ x. p x ≡ false) (delete p xs)
unfolding delete
delete-All_miss p [] = tt
delete-All_miss p (x ∷ xs) = elim (Bool-cases (p x)) [
  | inl e ↦ rw e (delete-All_miss p xs)
  | inr e ↦ rw e (e, delete-All_miss p xs)
]

-- What a deletion of a stage checked, and what it left.
pub record StageDeleted (c : Context) (stage_id expected_version : ℕ) (b b' : Board) : Type 0 where
  pub stage : Stage
  pub key : stage.id ≡ stage_id
  pub current : stage.version ≡ expected_version
  pub was_open : is_open stage.stage_type ≡ true
  pub unused : stage_references b c.workspace_id stage_id ≡ []
  pub gone : All (λ x. (x.id == stage.id) ≡ false) b'.stages
  pub keeps_open : 1 ≤ count (is_open_of c.workspace_id stage.pipeline_id) b'.stages

not_used : (names : List String) → is_used names ≡ false → names ≡ []
not_used [] h = refl
not_used (n ∷ names) h = cc

-- A stage is deleted only if it is open, at the expected version and without references; then no
-- stage has its id, and its pipeline still has an open stage. The ids of the stages are distinct.
pub delete_stage-StageDeleted :
    (refused : Bool) (c : Context) (stage_id expected_version : ℕ) (b b' : Board)
    → Distinct (λ (x : Stage). x.id) b.stages
    → delete_stage refused c stage_id expected_version b ≡ ok b'
    → StageDeleted c stage_id expected_version b b'
unfolding delete_stage ensure_stage
delete_stage-StageDeleted refused c stage_id expected_version b b' unique h =
    let (seen, f0, h0) = >>=-eq-ok (ensure_stage b c.workspace_id stage_id none) _ h in
    let (p, f1, h1) = >>=-eq-ok (ensure_pipeline b c.workspace_id seen.pipeline_id) _ h0 in
    let (x, f2, h2) = >>=-eq-ok (ensure_stage b c.workspace_id stage_id (some p.id)) _ h1 in
    let (t3, h3) = raise_if-eq-ok (not (x.version == expected_version)) version_conflict _ h2 in
    let (t4, h4) = raise_if-eq-ok (not (is_open x.stage_type)) (http 409 "stage_not_open") _ h3 in
    let (t5, h5) =
      raise_if-eq-ok (is_used (stage_references b c.workspace_id x.id)) (http 409 "stage_in_use") _
        h4 in
    let (t6, h6) =
      raise_if-eq-ok (leb (count (is_open_of c.workspace_id x.pipeline_id) b.stages) 1)
        (http 409 "last_open_stage") _ h5 in
    let (t7, h7) = raise_if-eq-ok refused (http 409 "stage_in_use") _ h6 in
    let hit = find?-test _ b.stages (require-eq-ok _ stage_not_found f2) in
    let key : x.id ≡ stage_id = ground (arith, hit) in
    let left : b'.stages ≡ delete (λ y. y.id == x.id) b.stages = ground (arith, h7) in
    let q = is_open_of c.workspace_id x.pipeline_id in
    let one =
      count-key-le (λ (y : Stage). y.id) x.id (λ y. y.id == x.id) (λ y t. (==_iff y.id x.id).0 t)
        b.stages unique in
    record {
      stage = x;
      key = key;
      current = ground (arith, t3);
      was_open = ground (arith, t4);
      unused = rw key at (not_used (stage_references b c.workspace_id x.id) t5);
      gone = rw left (delete-All_miss (λ (y : Stage). y.id == x.id) b.stages);
      keeps_open =
          rw left
            (let few = count-delete q (λ y. y.id == x.id) b.stages in ground (arith, t6, one, few));
    }
