-- ===== src/Events/Recorded.antt =====
-- What the three ways of recording append, and to which tables.
use mathlib.Core.List.{Memᴰ}
use pulse_crm.Prelude.{
  ℕ, ◌≡◌, refl, ◌<◌, inl, inr, Option, none, some, List, [], ◌∷◌, All, All-map, arith, ltb, ◌==◌,
  Bool-cases, ==_iff,
}
use pulse_crm.Events.{add_recipient, recipients}

-- Distinct recipients in increasing order.
abbrev pub IsIncreasing : List ℕ → Type 0
IsIncreasing [] = Unit
IsIncreasing (x ∷ xs) = All (λ y. x < y) xs × IsIncreasing xs

add_recipient-All {κ} :
    (P : ℕ → Type κ) (r : ℕ) (xs : List ℕ) → P r → All P xs → All P (add_recipient r xs)
unfolding add_recipient
add_recipient-All P r [] p h = (p, tt)
add_recipient-All P r (x ∷ xs) p (hx, h) = elim (Bool-cases (ltb r x)) [
  | inl t ↦ rw t (p, (hx, h))
  | inr t ↦ elim (Bool-cases (r == x)) [
    | inl s ↦ rw (t, s) (hx, h)
    | inr s ↦ rw (t, s) (hx, add_recipient-All P r xs p h)
  ]
]

below-All : (r x : ℕ) (xs : List ℕ) → r < x → All (λ y. x < y) xs → All (λ y. r < y) xs
below-All r x xs l h = All-map (λ y (g : x < y). omega arith) xs h

add_recipient-IsIncreasing :
    (r : ℕ) (xs : List ℕ) → IsIncreasing xs → IsIncreasing (add_recipient r xs)
unfolding add_recipient
add_recipient-IsIncreasing r [] h = (tt, tt)
add_recipient-IsIncreasing r (x ∷ xs) (hx, h) = elim (Bool-cases (ltb r x)) [
  | inl t ↦ rw t ((ground arith, below-All r x xs (ground arith) hx), (hx, h))
  | inr t ↦ elim (Bool-cases (r == x)) [
    | inl s ↦ rw (t, s) (hx, h)
    | inr s ↦
        rw (t, s)
          (add_recipient-All (λ y. x < y) r xs (ground arith) hx, add_recipient-IsIncreasing r xs h)
  ]
]

recipients-IsIncreasing : (rs : List (Option ℕ)) → IsIncreasing (recipients rs)
unfolding recipients
recipients-IsIncreasing [] = tt
recipients-IsIncreasing (none ∷ rs) = recipients-IsIncreasing rs
recipients-IsIncreasing (some r ∷ rs) =
    add_recipient-IsIncreasing r (recipients rs) (recipients-IsIncreasing rs)

mem_of_add_recipient : (r : ℕ) (xs : List ℕ) {y : ℕ} → Memᴰ y (r ∷ xs) → Memᴰ y (add_recipient r xs)
unfolding add_recipient
mem_of_add_recipient r [] m = m
mem_of_add_recipient r (x ∷ xs) {y} m = elim (Bool-cases (ltb r x)) [
  | inl t ↦ rw t m
  | inr t ↦ elim (Bool-cases (r == x)) [
    | inl s ↦ rw (t, s) (same ((==_iff r x).0 s) m)
    | inr s ↦ rw (t, s) (step (mem_of_add_recipient r xs) m)
  ]
]
  where
    same : r ≡ x → Memᴰ y (r ∷ x ∷ xs) → Memᴰ y (x ∷ xs)
    same e (Memᴰ.head p) = Memᴰ.head (ground arith)
    same e (Memᴰ.tail n) = n

    step :
        (Memᴰ y (r ∷ xs) → Memᴰ y (add_recipient r xs))
        → Memᴰ y (r ∷ x ∷ xs)
        → Memᴰ y (x ∷ add_recipient r xs)
    step rest (Memᴰ.head p) = Memᴰ.tail (rest (Memᴰ.head p))
    step rest (Memᴰ.tail (Memᴰ.head p)) = Memᴰ.head p
    step rest (Memᴰ.tail (Memᴰ.tail n)) = Memᴰ.tail (rest (Memᴰ.tail n))

recipients-mem : (rs : List (Option ℕ)) {r : ℕ} → Memᴰ (some r) rs → Memᴰ r (recipients rs)
unfolding recipients
recipients-mem [] m = elim m [ ]
recipients-mem (none ∷ rs) (Memᴰ.head e) = cc
recipients-mem (none ∷ rs) (Memᴰ.tail m) = recipients-mem rs m
recipients-mem (some x ∷ rs) (Memᴰ.head e) =
    mem_of_add_recipient x (recipients rs) (Memᴰ.head (ground arith))
recipients-mem (some x ∷ rs) (Memᴰ.tail m) =
    mem_of_add_recipient x (recipients rs) (Memᴰ.tail (recipients-mem rs m))

recipients-All : (rs : List (Option ℕ)) → All (λ r. Memᴰ (some r) rs) (recipients rs)
unfolding recipients
recipients-All [] = tt
recipients-All (none ∷ rs) = All-map (λ r m. Memᴰ.tail m) (recipients rs) (recipients-All rs)
recipients-All (some x ∷ rs) =
    add_recipient-All (λ r. Memᴰ (some r) (some x ∷ rs)) x (recipients rs) (Memᴰ.head refl)
      (All-map (λ r m. Memᴰ.tail m) (recipients rs) (recipients-All rs))

-- The ids that are told of a change of access are exactly those of the request that are present, in
-- increasing order and so each once.
pub recipients_lem :
    (rs : List (Option ℕ))
    → IsIncreasing (recipients rs)
      × ((r : ℕ) → Memᴰ (some r) rs → Memᴰ r (recipients rs))
      × All (λ r. Memᴰ (some r) rs) (recipients rs)
recipients_lem rs = (recipients-IsIncreasing rs, λ r m. recipients-mem rs m, recipients-All rs)
