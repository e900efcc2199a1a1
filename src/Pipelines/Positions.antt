-- ===== src/Pipelines/Positions.antt =====
-- The positions that `create_stage` writes: contiguous from 0, and reached without a collision on
-- the unique constraint of the pipeline's positions.
use pulse_crm.Prelude.Table.Members.{Distinct}
use pulse_crm.Prelude.{
  ℕ, ◌+◌, ◌≤◌, ◌<◌, ◌≢◌, List, [], ◌∷◌, All, arith, leb, Bool-cases, inl, inr, length,
}
use pulse_crm.Pipelines.{Stage}
use pulse_crm.Pipelines.Stages.{insert_ordered, by_position, offset, shift}

Ascending : List Stage → Type 0
Ascending [] = Unit
Ascending (x ∷ xs) = All (λ y. x.position < y.position) xs × Ascending xs

module _ {κ} (P : Stage → Type κ) where
  insert_ordered-All : (x : Stage) (ys : List Stage) → P x → All P ys → All P (insert_ordered x ys)
  unfolding insert_ordered
  insert_ordered-All x [] h hs = (h, tt)
  insert_ordered-All x (y ∷ ys) h (k, hs) = elim (Bool-cases (leb x.position y.position)) [
    | inl e ↦ rw e (h, (k, hs))
    | inr e ↦ rw e (k, insert_ordered-All x ys h hs)
  ]

  pub by_position-All : (xs : List Stage) → All P xs → All P (by_position xs)
  unfolding by_position
  by_position-All [] h = tt
  by_position-All (x ∷ xs) (h, hs) = insert_ordered-All x (by_position xs) h (by_position-All xs hs)

above :
    (x y : Stage) (ys : List Stage)
    → x.position < y.position
    → All (λ z. y.position < z.position) ys
    → All (λ z. x.position < z.position) ys
above x y [] h hs = tt
above x y (z ∷ zs) h (k, hs) = (omega arith, above x y zs h hs)

insert_ordered-Ascending :
    (x : Stage) (ys : List Stage)
    → All (λ y. x.position ≢ y.position) ys
    → Ascending ys
    → Ascending (insert_ordered x ys)
unfolding insert_ordered Ascending
insert_ordered-Ascending x [] ne h = (tt, tt)
insert_ordered-Ascending x (y ∷ ys) (n, ne) (k, h) = elim (Bool-cases (leb x.position y.position)) [
  | inl e ↦
      let less : x.position < y.position = ground arith in
      rw e ((less, above x y ys less k), (k, h))
  | inr e ↦ rw e (
    insert_ordered-All (λ z. y.position < z.position) x ys (ground arith) k,
    insert_ordered-Ascending x ys ne h,
  )
]

by_position-Ascending :
    (xs : List Stage) → Distinct (λ (x : Stage). x.position) xs → Ascending (by_position xs)
unfolding by_position Ascending
by_position-Ascending [] d = tt
by_position-Ascending (x ∷ xs) (ne, d) =
    insert_ordered-Ascending x (by_position xs)
      (by_position-All (λ y. x.position ≢ y.position) xs ne) (by_position-Ascending xs d)

-- The offset lies above every position, and above the number of the stages.
offset_above : (xs : List Stage) → Ascending xs → All (λ y. y.position + 2 ≤ offset xs) xs
unfolding offset Ascending
offset_above [] h = tt
offset_above (x ∷ []) h = (omega arith, tt)
offset_above (x ∷ y ∷ ys) ((less, k), h) =
    let rest = offset_above (y ∷ ys) h in (omega (arith, less, rest.0), rest)

offset-length :
    (x : Stage) (xs : List Stage)
    → Ascending (x ∷ xs)
    → x.position + length (x ∷ xs) + 1 ≤ offset (x ∷ xs)
unfolding offset Ascending
offset-length x [] h = omega arith
offset-length x (y ∷ ys) ((less, k), h) = omega (arith, less, offset-length y ys h)

length-lt_offset : (xs : List Stage) → Ascending xs → length xs < offset xs
unfolding offset
length-lt_offset [] h = omega arith
length-lt_offset (x ∷ xs) h = omega (arith, offset-length x xs h)

All-shifted :
    (n : ℕ) (all xs : List Stage)
    → length all < n
    → All (λ y. y.position + 2 ≤ n) all
    → All
        (λ x.
          (length all < (shift n x).position) × All (λ y. y.position < (shift n x).position) all)
        xs
All-shifted n all [] h k = tt
All-shifted n all (x ∷ xs) h k = ((omega (arith, h), below all k), All-shifted n all xs h k)
  where
    below :
        (ys : List Stage)
        → All (λ y. y.position + 2 ≤ n) ys
        → All (λ y. y.position < (shift n x).position) ys
    below [] u = tt
    below (y ∷ ys) (u, us) = (omega (arith, u), below ys us)

-- The first flush of `create_stage` moves the stages of a pipeline, whose positions are distinct,
-- above every position that they had and every position that the second flush gives out, so that
-- neither flush meets a row that still holds a position.
pub offset-clear :
    (xs : List Stage)
    → Distinct (λ (x : Stage). x.position) xs
    → let stages = by_position xs in
      All
        (λ x.
          (length stages < (shift (offset stages) x).position)
          × All (λ y. y.position < (shift (offset stages) x).position) stages)
        stages
offset-clear xs d =
    let sorted = by_position-Ascending xs d in
    All-shifted (offset (by_position xs)) (by_position xs) (by_position xs)
      (length-lt_offset (by_position xs) sorted) (offset_above (by_position xs) sorted)
