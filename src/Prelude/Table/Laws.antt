-- ===== src/Prelude/Table/Laws.antt =====
-- What selection, update and deletion do to the rows of a table.
use Prim.Native.Nat.{◌+◌, ◌≤◌}
use mathlib.Core.Path.{◌≡◌, refl, ap}
use mathlib.Core.Logic.{inl, inr}
use mathlib.Core.Bool.{Bool, true, false}
use mathlib.Core.Option
use mathlib.Core.Option.{none, some}
use mathlib.Core.List.{List, [], ◌∷◌, ◌++◌}
use native.Mathlib.Omega.{arith}
use pulse_crm.Prelude.Tests.{if◌then◌else◌, Bool-cases}
use pulse_crm.Prelude.Lists.{length, All}
use pulse_crm.Prelude.Table.{select, find?, any, count, update, delete}

module _ {ℓ} {A : Type ℓ} (p : A → Bool) where
  pub find?-test : (xs : List A) {x : A} → find? p xs ≡ some x → p x ≡ true
  unfolding find?
  find?-test [] h = cc
  find?-test (y ∷ ys) {x} h = elim (Bool-cases (p y)) [
    | inl e ↦ ground arith
    | inr e ↦ find?-test ys (ground arith)
  ]

  pub find?-none-All : (xs : List A) → find? p xs ≡ none → All (λ x. p x ≡ false) xs
  unfolding find?
  find?-none-All [] h = tt
  find?-none-All (y ∷ ys) h = (ground arith, find?-none-All ys (ground arith))

  pub find?-eq-none_of_All : (xs : List A) → All (λ x. p x ≡ false) xs → find? p xs ≡ none
  unfolding find?
  find?-eq-none_of_All [] h = refl
  find?-eq-none_of_All (y ∷ ys) (e, h) = rw e (find?-eq-none_of_All ys h)

  pub select-All_test : (xs : List A) → All (λ x. p x ≡ true) (select p xs)
  unfolding select
  select-All_test [] = tt
  select-All_test (y ∷ ys) = elim (Bool-cases (p y)) [
    | inl e ↦ rw e (e, select-All_test ys)
    | inr e ↦ rw e (select-All_test ys)
  ]

  pub update_id : (f : A → A) (xs : List A) → All (λ x. p x ≡ false) xs → update p f xs ≡ xs
  unfolding update
  update_id f [] h = refl
  update_id f (y ∷ ys) (e, h) = rw e (ap (λ r. y ∷ r) (update_id f ys h))

  pub count-eq-zero_of_All : (xs : List A) → All (λ x. p x ≡ false) xs → count p xs ≡ 0
  unfolding count
  count-eq-zero_of_All [] h = refl
  count-eq-zero_of_All (y ∷ ys) (e, h) = rw e (omega (arith, count-eq-zero_of_All ys h))

  pub count-append : (xs ys : List A) → count p (xs ++ ys) ≡ count p xs + count p ys
  unfolding count
  count-append [] ys = omega arith
  count-append (x ∷ xs) ys = omega (arith, count-append xs ys)

  pub length-update : (f : A → A) (xs : List A) → length (update p f xs) ≡ length xs
  unfolding update
  length-update f [] = refl
  length-update f (x ∷ xs) = omega (arith, length-update f xs)

  pub count-le-length : (xs : List A) → count p xs ≤ length xs
  unfolding count
  count-le-length [] = omega arith
  count-le-length (x ∷ xs) = ground (arith, count-le-length xs)

module _ {ℓ κ} {A : Type ℓ} (P : A → Type κ) (p : A → Bool) where
  pub find?-All : (xs : List A) {x : A} → All P xs → find? p xs ≡ some x → P x
  unfolding find?
  find?-All [] h e = cc
  find?-All (y ∷ ys) {x} (hy, h) e = elim (Bool-cases (p y)) [
    | inl t ↦ let same : y ≡ x = ground arith in rw (← same) hy
    | inr t ↦ find?-All ys h (ground arith)
  ]

  pub select-All : (xs : List A) → All P xs → All P (select p xs)
  unfolding select
  select-All [] h = tt
  select-All (y ∷ ys) (hy, h) = elim (Bool-cases (p y)) [
    | inl t ↦ rw t (hy, select-All ys h)
    | inr t ↦ rw t (select-All ys h)
  ]

  pub delete-All : (xs : List A) → All P xs → All P (delete p xs)
  unfolding delete
  delete-All [] h = tt
  delete-All (y ∷ ys) (hy, h) = elim (Bool-cases (p y)) [
    | inl t ↦ rw t (delete-All ys h)
    | inr t ↦ rw t (hy, delete-All ys h)
  ]

  pub update-All :
      (f : A → A)
      → ((x : A) → p x ≡ true → P x → P (f x))
      → (xs : List A) → All P xs
      → All P (update p f xs)
  unfolding update
  update-All f step [] h = tt
  update-All f step (y ∷ ys) (hy, h) = elim (Bool-cases (p y)) [
    | inl t ↦ rw t (step y t hy, update-All f step ys h)
    | inr t ↦ rw t (hy, update-All f step ys h)
  ]

  -- A property that the update establishes on the rows it takes, and that the others have.
  pub update-All_of_cases :
      (f : A → A)
      → ((x : A) → p x ≡ true → P (f x))
      → ((x : A) → p x ≡ false → P x)
      → (xs : List A) → All P (update p f xs)
  unfolding update
  update-All_of_cases f hit miss [] = tt
  update-All_of_cases f hit miss (y ∷ ys) = elim (Bool-cases (p y)) [
    | inl t ↦ rw t (hit y t, update-All_of_cases f hit miss ys)
    | inr t ↦ rw t (miss y t, update-All_of_cases f hit miss ys)
  ]

-- From one property of the rows to another.
pub update-All_from {ℓ κ λ'} :
    {A : Type ℓ} (P : A → Type κ) (Q : A → Type λ') (p : A → Bool) (f : A → A)
    → ((x : A) → p x ≡ true → Q x → P (f x))
    → ((x : A) → p x ≡ false → Q x → P x)
    → (xs : List A) → All Q xs
    → All P (update p f xs)
unfolding update
update-All_from P Q p f hit miss [] h = tt
update-All_from P Q p f hit miss (y ∷ ys) (hy, h) = elim (Bool-cases (p y)) [
  | inl t ↦ rw t (hit y t hy, update-All_from P Q p f hit miss ys h)
  | inr t ↦ rw t (miss y t hy, update-All_from P Q p f hit miss ys h)
]

-- The rows that `q` counts stay as many if the update keeps `q`.
pub count-update {ℓ} :
    {A : Type ℓ} (q p : A → Bool) (f : A → A)
    → ((x : A) → p x ≡ true → q (f x) ≡ q x)
    → (xs : List A) → count q (update p f xs) ≡ count q xs
unfolding count update
count-update q p f keep [] = refl
count-update q p f keep (y ∷ ys) = elim (Bool-cases (p y)) [
  | inl t ↦ rw (t, keep y t) (ap (λ n. (if q y then 1 else 0) + n) (count-update q p f keep ys))
  | inr t ↦ rw t (ap (λ n. (if q y then 1 else 0) + n) (count-update q p f keep ys))
]

-- The row that was found is found again after an update of the rows that pass the test.
pub find?-update {ℓ} :
    {A : Type ℓ} (p : A → Bool) (f : A → A)
    → ((x : A) → p x ≡ true → p (f x) ≡ true)
    → (xs : List A) {x : A} → find? p xs ≡ some x
    → find? p (update p f xs) ≡ some (f x)
unfolding find? update
find?-update p f keep [] h = cc
find?-update p f keep (y ∷ ys) h = elim (Bool-cases (p y)) [
  | inl t ↦ rw (t, keep y t) (ap (λ o. Option.map f o) (rw t at h))
  | inr t ↦ rw (t, t) (find?-update p f keep ys (rw t at h))
]

-- An update that keeps a test leaves the first row that passes it in place.
pub find?-update_keep {ℓ} :
    {A : Type ℓ} (q p : A → Bool) (f : A → A)
    → ((y : A) → q (f y) ≡ q y)
    → (xs : List A) {x : A} → find? q xs ≡ some x
    → p x ≡ true
    → find? q (update p f xs) ≡ some (f x)
unfolding find? update
find?-update_keep q p f keep [] h t = cc
find?-update_keep q p f keep (y ∷ ys) {x} h t = elim (Bool-cases (q y)) [
  | inl e ↦
      let same : y ≡ x = ground arith in
      let hit : p y ≡ true = rw same t in rw (hit, keep y, e, same) refl
  | inr e ↦
      let rest = find?-update_keep q p f keep ys (ground arith) t in
      elim (Bool-cases (p y)) [ inl g ↦ rw (g, keep y, e) rest | inr g ↦ rw (g, e) rest ]
]

pub find?_of_any {ℓ} :
    {A : Type ℓ} (p : A → Bool) (xs : List A) → any p xs ≡ true → (x : A) × (find? p xs ≡ some x)
unfolding find? any
find?_of_any p [] h = cc h
find?_of_any p (x ∷ xs) h = elim (Bool-cases (p x)) [
  | inl t ↦ (x, rw t refl)
  | inr t ↦ let (y, e) = find?_of_any p xs (ground (arith, h, t)) in (y, rw t e)
]
