-- ===== src/Pipelines/Placed.antt =====
-- What `create_stage` leaves behind: the stages of the pipeline in their old order with the new one
-- before the first stage that is not open, numbered from 0.
use mathlib.Core.Path.{subst}
use pulse_crm.Prelude.Table.Laws.{find?-test, select-All_test}
use pulse_crm.Prelude.{
  ℕ, zero, suc, ◌+◌, ◌≤◌, ◌≡◌, refl, ap, ◌∙◌, String, Bool, true, List, [], ◌∷◌, ◌++◌, map, All,
  arith, leb, ==_refl, Bool-cases, inl, inr, length, take, drop, select, delete, ok, http,
  >>=-eq-ok, raise_if-eq-ok, require-eq-ok,
}
use pulse_crm.Access.{Context}
use pulse_crm.Pipelines.{
  is_open, Pipeline, Stage, Board, clean_resource_name, own_pipeline, pipeline_not_found,
  ensure_pipeline, of_pipeline,
}
use pulse_crm.Pipelines.Stages.{
  StageAppendCreate, insert_at, place, renumber, new_stage, insert_stage, stages_of, write_stage,
  create_stage,
}
use pulse_crm.Pipelines.Positions.{by_position-All}

abbrev pub count_up : ℕ → ℕ → List ℕ
count_up n zero = []
count_up n (suc k) = n ∷ count_up (n + 1) k

renumber-positions :
    (n : ℕ) (xs : List Stage)
    → map (λ (x : Stage). x.position) (renumber n xs) ≡ count_up n (length xs)
unfolding renumber
renumber-positions n [] = refl
renumber-positions n (x ∷ xs) = ap (λ r. n ∷ r) (renumber-positions (n + 1) xs)

renumber-ids :
    (n : ℕ) (xs : List Stage)
    → map (λ (x : Stage). x.id) (renumber n xs) ≡ map (λ (x : Stage). x.id) xs
unfolding renumber
renumber-ids n [] = refl
renumber-ids n (x ∷ xs) = ap (λ r. x.id ∷ r) (renumber-ids (n + 1) xs)

length-insert_stage :
    (s : Stage) (k : ℕ) (xs : List Stage) → length (take k xs ++ (s ∷ drop k xs)) ≡ length xs + 1
length-insert_stage s zero xs = omega arith
length-insert_stage s (suc k) [] = omega arith
length-insert_stage s (suc k) (x ∷ xs) = omega (arith, length-insert_stage s k xs)

insert_at-open : (xs : List Stage) → All (λ x. is_open x.stage_type ≡ true) (take (insert_at xs) xs)
unfolding insert_at
insert_at-open [] = tt
insert_at-open (x ∷ xs) = elim (Bool-cases (is_open x.stage_type)) [
  | inl e ↦ rw e (e, insert_at-open xs)
  | inr e ↦ rw e tt
]

module _ (p : Stage → Bool) where
  renumber-select :
      (n : ℕ) (xs ys : List Stage)
      → ((n : ℕ) (x : Stage) → p (place n x) ≡ p x)
      → All (λ x. p x ≡ true) xs
      → select p (renumber n xs ++ ys) ≡ renumber n xs ++ select p ys
  unfolding renumber select
  renumber-select n [] ys keep h = refl
  renumber-select n (x ∷ xs) ys keep (e, h) =
      rw (keep n x, e) (ap (λ r. place n x ∷ r) (renumber-select (n + 1) xs ys keep h))

  select-delete : (xs : List Stage) → select p (delete p xs) ≡ []
  unfolding select delete
  select-delete [] = refl
  select-delete (x ∷ xs) = elim (Bool-cases (p x)) [
    | inl e ↦ rw e (select-delete xs)
    | inr e ↦ rw (e, e) (select-delete xs)
  ]

append_nil : (xs : List Stage) → xs ++ [] ≡ xs
append_nil [] = refl
append_nil (x ∷ xs) = ap (λ r. x ∷ r) (append_nil xs)

module _ {κ} (P : Stage → Type κ) where
  insert-All :
      (s : Stage) (k : ℕ) (xs : List Stage) → P s → All P xs → All P (take k xs ++ (s ∷ drop k xs))
  insert-All s zero xs h hs = (h, hs)
  insert-All s (suc k) [] h hs = (h, tt)
  insert-All s (suc k) (x ∷ xs) h (g, hs) = (g, insert-All s k xs h hs)

-- What a successful creation checked, and that it then wrote.
pub record Created (id : ℕ) (c : Context) (pipeline_id : ℕ) (payload : StageAppendCreate)
    (b : Board) (r : Stage × Board) : Type 0 where
  pub pipeline : Pipeline
  pub name : String
  pub key : pipeline.id ≡ pipeline_id
  pub few : length (stages_of c pipeline_id b) + 1 ≤ 50
  pub written : write_stage id c pipeline payload name b ≡ r

pub create_stage-eq-ok :
    (id : ℕ) (c : Context) (pipeline_id : ℕ) (payload : StageAppendCreate) (b : Board)
    (r : Stage × Board)
    → create_stage id c pipeline_id payload b ≡ ok r
    → Created id c pipeline_id payload b r
unfolding create_stage ensure_pipeline
create_stage-eq-ok id c pipeline_id payload b r h =
    let (name, cleaned, h1) =
      >>=-eq-ok (clean_resource_name payload.name "stage name cannot be blank") _ h in
    let (p, found, h2) = >>=-eq-ok (ensure_pipeline b c.workspace_id pipeline_id) _ h1 in
    let (few, h3) =
      raise_if-eq-ok (leb 50 (length (stages_of c p.id b))) (http 409 "pipeline_stage_limit") _
        h2 in
    let hit =
      find?-test (own_pipeline c.workspace_id pipeline_id) b.pipelines
        (require-eq-ok _ pipeline_not_found found) in
    let key : p.id ≡ pipeline_id = ground (arith, hit) in
    record {
      pipeline = p;
      name = name;
      key = key;
      few = let little = rw key at few in ground (arith, little);
      written = ground (arith, h3);
    }

module _ (id : ℕ) (c : Context) (payload : StageAppendCreate) (name : String) (b : Board)
    (p : Pipeline) where
  abbrev mine : Stage → Bool
  mine = of_pipeline c.workspace_id p.id

  new_stage-mine : (n : ℕ) → mine (new_stage id c p payload name n) ≡ true
  new_stage-mine n = rw (==_refl c.workspace_id, ==_refl p.id) refl

  write_stage-select :
      let r = write_stage id c p payload name b in
      select mine r.1.stages ≡ renumber 0 (insert_stage r.0 (stages_of c p.id b))
  unfolding write_stage
  write_stage-select =
      let old = stages_of c p.id b in
      let stage = new_stage id c p payload name (insert_at old) in
      let all =
        by_position-All (λ x. mine x ≡ true) (select mine b.stages)
          (select-All_test mine b.stages) in
      let ins =
        insert-All (λ x. mine x ≡ true) stage (insert_at old) old (new_stage-mine (insert_at old))
          all in
      rw
        (
          renumber-select mine 0 (insert_stage stage old) (delete mine b.stages) (λ n x. refl) ins,
          select-delete mine b.stages,
        )
        (append_nil (renumber 0 (insert_stage stage old)))

-- The new stage is open and stands at its position in the old list of the pipeline's stages, whose
-- order is kept, after open stages only; the positions are 0, 1, 2, … and at most 50 stages.
abbrev pub IsPlaced : Context → ℕ → Board → Stage × Board → Type 0
IsPlaced c pipeline_id b (stage, b') =
    let old = stages_of c pipeline_id b in
    let new = select (of_pipeline c.workspace_id pipeline_id) b'.stages in
    (map (λ (x : Stage). x.position) new ≡ count_up 0 (length old + 1))
    × (length old + 1 ≤ 50)
    × (map (λ (x : Stage). x.id) new
        ≡ map (λ (x : Stage). x.id) (take stage.position old ++ (stage ∷ drop stage.position old)))
    × All (λ x. is_open x.stage_type ≡ true) (take stage.position old)
    × (is_open stage.stage_type ≡ true)

write_stage-IsPlaced :
    (id : ℕ) (c : Context) (p : Pipeline) (payload : StageAppendCreate) (name : String) (b : Board)
    → length (stages_of c p.id b) + 1 ≤ 50
    → IsPlaced c p.id b (write_stage id c p payload name b)
unfolding write_stage
write_stage-IsPlaced id c p payload name b few =
    let old = stages_of c p.id b in
    let stage = new_stage id c p payload name (insert_at old) in
    let selected = write_stage-select id c payload name b p in
    (
      rw selected (
          renumber-positions 0 (insert_stage stage old)
          ∙ ap (count_up 0) (length-insert_stage stage (insert_at old) old)),
      few,
      rw selected (renumber-ids 0 (insert_stage stage old)),
      insert_at-open old,
      refl,
    )

-- A created stage is open and stands at its position in the list of the pipeline's stages that was
-- there, whose order is kept, after open stages only; the positions are then 0, 1, 2, … and there
-- are at most 50 stages.
pub create_stage-IsPlaced :
    (id : ℕ) (c : Context) (pipeline_id : ℕ) (payload : StageAppendCreate) (b b' : Board)
    (stage : Stage)
    → create_stage id c pipeline_id payload b ≡ ok (stage, b')
    → IsPlaced c pipeline_id b (stage, b')
create_stage-IsPlaced id c pipeline_id payload b b' stage h =
    let made = create_stage-eq-ok id c pipeline_id payload b (stage, b') h in
    let few : length (stages_of c made.pipeline.id b) + 1 ≤ 50 = rw made.key made.few in
    let placed = write_stage-IsPlaced id c made.pipeline payload made.name b few in
    let moved : IsPlaced c pipeline_id b (write_stage id c made.pipeline payload made.name b) =
      rw made.key at placed in
    subst (IsPlaced c pipeline_id b) made.written moved
