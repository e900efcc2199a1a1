-- ===== src/Prelude/Table/Counts.antt =====
-- How many rows a count loses or keeps under an update.
use Prim.Native.Nat.{ℕ, ◌+◌, ◌≤◌}
use mathlib.Core.Path.{◌≡◌, refl, sym, ◌∙◌}
use mathlib.Core.Logic.{◌≢◌, inl, inr}
use mathlib.Core.Bool.{Bool, true, false}
use mathlib.Core.List.{List, [], ◌∷◌, Memᴰ}
use native.Mathlib.Omega.{arith}
use pulse_crm.Prelude.Tests.{Bool-cases, bit, ◌==◌, ==_refl}
use pulse_crm.Prelude.Lists.{All, All-map, length}
use pulse_crm.Prelude.Table.{select, any, count, update}
use pulse_crm.Prelude.Table.Laws.{update_id, count-eq-zero_of_All}
use pulse_crm.Prelude.Table.Members.{Distinct, All-mem}

module _ {ℓ} {A : Type ℓ} where
  pub All-of_count : (p : A → Bool) (xs : List A) → count p xs ≡ 0 → All (λ x. p x ≡ false) xs
  unfolding count
  All-of_count p [] h = tt
  All-of_count p (x ∷ xs) h = (ground arith, All-of_count p xs (ground arith))

  -- An update of at most one row costs a count at most one.
  pub count-le-update :
      (q p : A → Bool) (f : A → A) (xs : List A)
      → count p xs ≤ 1
      → count q xs ≤ count q (update p f xs) + 1
  unfolding count update
  count-le-update q p f [] h = omega arith
  count-le-update q p f (x ∷ xs) h = elim (Bool-cases (p x)) [
    | inl t ↦
        let rest : update p f xs ≡ xs = update_id p f xs (All-of_count p xs (ground (arith, t))) in
        rw (t, rest) (ground arith)
    | inr t ↦ let ih = count-le-update q p f xs (ground (arith, t)) in rw t (ground (arith, ih))
  ]

  -- A count loses nothing where each updated row counts for at least as much.
  pub count-mono-update :
      (q p : A → Bool) (f : A → A) (xs : List A)
      → All (λ x. p x ≡ true → bit (q x) ≤ bit (q (f x))) xs
      → count q xs ≤ count q (update p f xs)
  unfolding count update
  count-mono-update q p f [] h = omega arith
  count-mono-update q p f (x ∷ xs) (hx, h) = elim (Bool-cases (p x)) [
    | inl t ↦
        let now = hx t in let ih = count-mono-update q p f xs h in rw t (omega (arith, now, ih))
    | inr t ↦ let ih = count-mono-update q p f xs h in rw t (omega (arith, ih))
  ]

  pub count-ext : (q r : A → Bool) → ((x : A) → q x ≡ r x) → (xs : List A) → count q xs ≡ count r xs
  unfolding count
  count-ext q r h [] = refl
  count-ext q r h (x ∷ xs) = cc (h x, count-ext q r h xs)

  pub any-update :
      (q p : A → Bool) (f : A → A)
      → ((x : A) → q (f x) ≡ q x)
      → (xs : List A) → any q (update p f xs) ≡ any q xs
  unfolding any update
  any-update q p f keep [] = refl
  any-update q p f keep (x ∷ xs) = elim (Bool-cases (p x)) [
    | inl t ↦ let now = keep x in let ih = any-update q p f keep xs in rw t (cc (now, ih))
    | inr t ↦ let ih = any-update q p f keep xs in rw t (cc ih)
  ]

miss_of_key {ℓ} :
    {A : Type ℓ} (key : A → ℕ) (k : ℕ) (p : A → Bool)
    → ((x : A) → p x ≡ true → key x ≡ k)
    → (x y : A) → key x ≡ k
    → key x ≢ key y
    → p y ≡ false
miss_of_key key k p same x y e ne = elim (Bool-cases (p y)) [
  | inl hit ↦ let f = same y hit in absurd (ne (omega arith))
  | inr miss ↦ miss
]

-- At most one row has a given key.
pub count-key-le {ℓ} :
    {A : Type ℓ} (key : A → ℕ) (k : ℕ) (p : A → Bool)
    → ((x : A) → p x ≡ true → key x ≡ k)
    → (xs : List A) → Distinct key xs
    → count p xs ≤ 1
unfolding count
count-key-le key k p same [] d = omega arith
count-key-le key k p same (x ∷ xs) (hx, d) = elim (Bool-cases (p x)) [
  | inl t ↦
      let rest : count p xs ≡ 0 =
        count-eq-zero_of_All p xs
          (All-map (λ y ne. miss_of_key key k p same x y (same x t) ne) xs hx) in
      rw t (omega (arith, rest))
  | inr t ↦ let ih = count-key-le key k p same xs d in rw t (omega (arith, ih))
]

pub count-pos {ℓ} :
    {A : Type ℓ} (q : A → Bool) (xs : List A) {x : A} → Memᴰ x xs → q x ≡ true → 1 ≤ count q xs
unfolding count
count-pos q [] m t = elim m [ ]
count-pos q (y ∷ ys) (Memᴰ.head e) t = let t' = rw e at t in rw t' (omega arith)
count-pos q (y ∷ ys) {x} (Memᴰ.tail m) t = ground (arith, count-pos q ys {x = x} m t)

-- Of the rows that a unique key selects there is one.
pub count-one-eq {ℓ} :
    {A : Type ℓ} (q : A → Bool) (xs : List A) {x y : A}
    → count q xs ≤ 1
    → Memᴰ x xs
    → Memᴰ y xs
    → q x ≡ true
    → q y ≡ true
    → x ≡ y
unfolding count
count-one-eq q [] c m n t u = elim m [ ]
count-one-eq q (z ∷ zs) c (Memᴰ.head e) (Memᴰ.head f) t u = e ∙ sym f
count-one-eq q (z ∷ zs) {x} {y} c (Memᴰ.head e) (Memᴰ.tail n) t u =
    let hit : q z ≡ true = rw e at t in
    absurd (let more = count-pos q zs {x = y} n u in ground (arith, c, hit, more))
count-one-eq q (z ∷ zs) {x} {y} c (Memᴰ.tail m) (Memᴰ.head f) t u =
    let hit : q z ≡ true = rw f at u in
    absurd (let more = count-pos q zs {x = x} m t in ground (arith, c, hit, more))
count-one-eq q (z ∷ zs) {x} {y} c (Memᴰ.tail m) (Memᴰ.tail n) t u =
    count-one-eq q zs {x = x} {y = y} (ground (arith, c)) m n t u

-- An update of the row of a unique key that makes it count adds one to a count.
pub count-update_one {ℓ} :
    {A : Type ℓ} (key : A → ℕ) (q : A → Bool) (f : A → A) (xs : List A) {x : A}
    → Distinct key xs
    → Memᴰ x xs
    → q x ≡ false
    → q (f x) ≡ true
    → count q (update (λ y. key y == key x) f xs) ≡ count q xs + 1
unfolding count update
count-update_one key q f [] d m t u = elim m [ ]
count-update_one key q f (y ∷ ys) {x} (hy, d) (Memᴰ.head e) t u =
    let rest : update (λ z. key z == key x) f ys ≡ ys =
      update_id (λ z. key z == key x) f ys
        (All-map (λ z ne. let ne' = rw (← e) at ne in ground (arith, ne')) ys hy) in
    rw (← e, ==_refl (key x), t, u, rest) (omega arith)
count-update_one key q f (y ∷ ys) {x} (hy, d) (Memᴰ.tail m) t u =
    let miss : key y ≢ key x = All-mem (λ w. key y ≢ key w) hy m in
    let miss' : (key y == key x) ≡ false = ground (arith, miss) in
    let ih = count-update_one key q f ys {x = x} d m t u in rw miss' (omega (arith, ih))

-- An update of the row of a unique key that no longer makes it count takes one from a count.
pub count-update_off {ℓ} :
    {A : Type ℓ} (key : A → ℕ) (q : A → Bool) (f : A → A) (xs : List A) {x : A}
    → Distinct key xs
    → Memᴰ x xs
    → q x ≡ true
    → q (f x) ≡ false
    → count q (update (λ y. key y == key x) f xs) + 1 ≡ count q xs
unfolding count update
count-update_off key q f [] d m t u = elim m [ ]
count-update_off key q f (y ∷ ys) {x} (hy, d) (Memᴰ.head e) t u =
    let rest : update (λ z. key z == key x) f ys ≡ ys =
      update_id (λ z. key z == key x) f ys
        (All-map (λ z ne. let ne' = rw (← e) at ne in ground (arith, ne')) ys hy) in
    rw (← e, ==_refl (key x), t, u, rest) (omega arith)
count-update_off key q f (y ∷ ys) {x} (hy, d) (Memᴰ.tail m) t u =
    let miss : key y ≢ key x = All-mem (λ w. key y ≢ key w) hy m in
    let miss' : (key y == key x) ≡ false = ground (arith, miss) in
    let ih = count-update_off key q f ys {x = x} d m t u in rw miss' (omega (arith, ih))

pub count_mono {ℓ} :
    {A : Type ℓ} (q p : A → Bool)
    → ((x : A) → q x ≡ true → p x ≡ true)
    → (xs : List A) → count q xs ≤ count p xs
unfolding count
count_mono q p imp [] = omega arith
count_mono q p imp (x ∷ xs) = elim (Bool-cases (q x)) [
  | inl t ↦ rw (t, imp x t) (omega (arith, count_mono q p imp xs))
  | inr t ↦ rw t (omega (arith, count_mono q p imp xs))
]

pub length-select {ℓ} :
    {A : Type ℓ} (p : A → Bool) (xs : List A) → length (select p xs) ≡ count p xs
unfolding count select
length-select p [] = refl
length-select p (x ∷ xs) = elim (Bool-cases (p x)) [
  | inl t ↦ rw t (omega (arith, length-select p xs))
  | inr t ↦ rw t (omega (arith, length-select p xs))
]
