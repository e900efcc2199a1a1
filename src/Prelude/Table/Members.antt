-- ===== src/Prelude/Table/Members.antt =====
-- Which rows a selection holds, and keys that determine their row.
use mathlib.Core.Path.{◌≡◌, refl, sym, ap, ◌∙◌}
use mathlib.Core.Logic.{◌≢◌, ◌⊎◌, inl, inr}
use mathlib.Core.Bool.{Bool, true, false}
use mathlib.Core.Option.{some}
use mathlib.Core.List.{List, [], ◌∷◌, map, Memᴰ}
use Prim.Native.Nat.{ℕ, zero, suc}
use native.Mathlib.Omega.{arith}
use pulse_crm.Prelude.Tests.{Bool-cases, Option-cases, if◌then◌else◌}
use pulse_crm.Prelude.Lists.{All, length, take, drop}
use pulse_crm.Prelude.Table.Laws.{find?-test, find?-none-All}
use pulse_crm.Prelude.Table.{select, find?, any, update}

module _ {ℓ} {A : Type ℓ} where
  pub All-mem {κ} : (P : A → Type κ) {x : A} {xs : List A} → All P xs → Memᴰ x xs → P x
  All-mem P h (Memᴰ.head e) = rw e h.0
  All-mem P h (Memᴰ.tail m) = All-mem P h.1 m

  pub All-of_mem {κ} : (P : A → Type κ) (xs : List A) → ((x : A) → Memᴰ x xs → P x) → All P xs
  All-of_mem P [] f = tt
  All-of_mem P (x ∷ xs) f = (f x (Memᴰ.head refl), All-of_mem P xs (λ y m. f y (Memᴰ.tail m)))

  pub mem_of_take : (n : ℕ) (xs : List A) {x : A} → Memᴰ x (take n xs) → Memᴰ x xs
  mem_of_take zero xs m = elim m [ ]
  mem_of_take (suc n) [] m = elim m [ ]
  mem_of_take (suc n) (y ∷ ys) (Memᴰ.head e) = Memᴰ.head e
  mem_of_take (suc n) (y ∷ ys) (Memᴰ.tail m) = Memᴰ.tail (mem_of_take n ys m)

  pub mem-take-or-drop :
      (n : ℕ) (xs : List A) {x : A} → Memᴰ x xs → Memᴰ x (take n xs) ⊎ Memᴰ x (drop n xs)
  mem-take-or-drop zero xs m = inr m
  mem-take-or-drop (suc n) [] m = elim m [ ]
  mem-take-or-drop (suc n) (y ∷ ys) (Memᴰ.head e) = inl (Memᴰ.head e)
  mem-take-or-drop (suc n) (y ∷ ys) (Memᴰ.tail m) = elim (mem-take-or-drop n ys m) [
    | inl t ↦ inl (Memᴰ.tail t)
    | inr d ↦ inr d
  ]

  pub length-take_of_drop :
      (n : ℕ) (xs : List A) {x : A} → Memᴰ x (drop n xs) → length (take n xs) ≡ n
  length-take_of_drop zero xs m = refl
  length-take_of_drop (suc n) [] m = elim m [ ]
  length-take_of_drop (suc n) (y ∷ ys) m = ap suc (length-take_of_drop n ys m)

pub mem-map {ℓ κ} :
    {A : Type ℓ} {B : Type κ} (f : A → B) (xs : List A) {x : A} → Memᴰ x xs → Memᴰ (f x) (map f xs)
mem-map f [] m = elim m [ ]
mem-map f (y ∷ ys) (Memᴰ.head e) = Memᴰ.head (ap f e)
mem-map f (y ∷ ys) (Memᴰ.tail m) = Memᴰ.tail (mem-map f ys m)

module _ {ℓ} {A : Type ℓ} (p : A → Bool) where
  pub mem_of_select : (xs : List A) {x : A} → Memᴰ x (select p xs) → Memᴰ x xs
  unfolding select
  mem_of_select [] m = elim m [ ]
  mem_of_select (y ∷ ys) {x} m = elim (Bool-cases (p y)) [
    | inl t ↦ go (mem_of_select ys) (rw (t, select) at m)
    | inr t ↦ Memᴰ.tail (mem_of_select ys (rw (t, select) at m))
  ]
    where
      go : (Memᴰ x (select p ys) → Memᴰ x ys) → Memᴰ x (y ∷ select p ys) → Memᴰ x (y ∷ ys)
      go rest (Memᴰ.head e) = Memᴰ.head e
      go rest (Memᴰ.tail n) = Memᴰ.tail (rest n)

  pub mem-select : (xs : List A) {x : A} → Memᴰ x xs → p x ≡ true → Memᴰ x (select p xs)
  unfolding select
  mem-select [] m h = elim m [ ]
  mem-select (y ∷ ys) (Memᴰ.head e) h = let t = rw e at h in rw t (Memᴰ.head e)
  mem-select (y ∷ ys) (Memᴰ.tail m) h = elim (Bool-cases (p y)) [
    | inl t ↦ rw t (Memᴰ.tail (mem-select ys m h))
    | inr t ↦ rw t (mem-select ys m h)
  ]

  pub find?-mem : (xs : List A) {x : A} → find? p xs ≡ some x → Memᴰ x xs
  unfolding find?
  find?-mem [] h = cc
  find?-mem (y ∷ ys) {x} h = elim (Bool-cases (p y)) [
    | inl t ↦ Memᴰ.head (ground arith)
    | inr t ↦ Memᴰ.tail (find?-mem ys (ground arith))
  ]

  pub any-mem : (xs : List A) → any p xs ≡ true → (x : A) × Memᴰ x xs × (p x ≡ true)
  unfolding any
  any-mem [] h = cc
  any-mem (y ∷ ys) h = elim (Bool-cases (p y)) [
    | inl t ↦ (y, Memᴰ.head refl, t)
    | inr t ↦ let (x, m, e) = any-mem ys (ground arith) in (x, Memᴰ.tail m, e)
  ]

  pub mem-any : (xs : List A) {x : A} → Memᴰ x xs → p x ≡ true → any p xs ≡ true
  unfolding any
  mem-any [] m h = elim m [ ]
  mem-any (y ∷ ys) (Memᴰ.head e) h = let t = rw e at h in rw t
  mem-any (y ∷ ys) (Memᴰ.tail m) h = ground (arith, mem-any ys m h)

pub mem-update {ℓ} :
    {A : Type ℓ} (p : A → Bool) (f : A → A) (xs : List A) {x : A}
    → Memᴰ x xs
    → p x ≡ false
    → Memᴰ x (update p f xs)
unfolding update
mem-update p f [] m e = elim m [ ]
mem-update p f (y ∷ ys) (Memᴰ.head same) e = let t = rw same at e in rw t (Memᴰ.head same)
mem-update p f (y ∷ ys) (Memᴰ.tail m) e = Memᴰ.tail (mem-update p f ys m e)

pub mem-update_hit {ℓ} :
    {A : Type ℓ} (p : A → Bool) (f : A → A) (xs : List A) {x : A}
    → Memᴰ x xs
    → p x ≡ true
    → Memᴰ (f x) (update p f xs)
unfolding update
mem-update_hit p f [] m e = elim m [ ]
mem-update_hit p f (y ∷ ys) (Memᴰ.head same) e =
    let t = rw same at e in rw t (Memᴰ.head (ap f same))
mem-update_hit p f (y ∷ ys) (Memᴰ.tail m) e = Memᴰ.tail (mem-update_hit p f ys m e)

-- A unique column, such as the primary key.
module _ {ℓ} {A : Type ℓ} (key : A → ℕ) where
  abbrev pub Distinct : List A → Type 0
  Distinct [] = Unit
  Distinct (x ∷ xs) = All (λ y. key x ≢ key y) xs × Distinct xs

  pub Distinct-eq :
      (xs : List A) {x y : A} → Distinct xs → Memᴰ x xs → Memᴰ y xs → key x ≡ key y → x ≡ y
  Distinct-eq [] d m n k = elim m [ ]
  Distinct-eq (z ∷ zs) d (Memᴰ.head e) (Memᴰ.head f) k = e ∙ sym f
  Distinct-eq (z ∷ zs) d (Memᴰ.head e) (Memᴰ.tail n) k =
      absurd (All-mem (λ w. key z ≢ key w) d.0 n (ground arith))
  Distinct-eq (z ∷ zs) d (Memᴰ.tail m) (Memᴰ.head f) k =
      absurd (All-mem (λ w. key z ≢ key w) d.0 m (ground arith))
  Distinct-eq (z ∷ zs) d (Memᴰ.tail m) (Memᴰ.tail n) k = Distinct-eq zs d.1 m n k

  -- An update that keeps the key of the rows that it takes keeps the keys distinct.
  module _ (p : A → Bool) (f : A → A) (keep : (x : A) → p x ≡ true → key (f x) ≡ key x) where
    update-key : (x : A) → key (if p x then f x else x) ≡ key x
    update-key x = elim (Bool-cases (p x)) [ inl t ↦ rw t (keep x t) | inr t ↦ rw t ]

    update-fresh :
        (k : ℕ) (xs : List A) → All (λ y. k ≢ key y) xs → All (λ y. k ≢ key y) (update p f xs)
    unfolding update
    update-fresh k [] h = tt
    update-fresh k (y ∷ ys) (hy, h) = (rw (update-key y) hy, update-fresh k ys h)

    pub update-Distinct : (xs : List A) → Distinct xs → Distinct (update p f xs)
    unfolding update
    update-Distinct [] d = tt
    update-Distinct (x ∷ xs) (hx, d) = (
      update-fresh (key (if p x then f x else x)) xs (rw (update-key x) hx),
      update-Distinct xs d,
    )

  -- The row with the wanted key is the one that is found, if it passes the test.
  pub find?-eq-some :
      (p : A → Bool) (xs : List A) {x : A}
      → Distinct xs
      → Memᴰ x xs
      → p x ≡ true
      → ((y : A) → p y ≡ true → key y ≡ key x)
      → find? p xs ≡ some x
  find?-eq-some p xs {x} d m t same = elim (Option-cases (find? p xs)) [
    | inl missing ↦ cc (All-mem (λ y. p y ≡ false) (find?-none-All p xs missing) m)
    | inr (y, found) ↦
        let one = Distinct-eq xs d (find?-mem p xs found) m (same y (find?-test p xs found)) in
        rw one at found
  ]
