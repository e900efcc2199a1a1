-- ===== src/Jobs/Order.antt =====
-- The order in which jobs are claimed: `order` sorts, and loses and adds no row.
use mathlib.Core.List.{Perm, Memᴰ}
use mathlib.Core.List.Perm
use pulse_crm.Prelude.{
  ℕ, zero, suc, ◌≡◌, true, false, List, [], ◌∷◌, All, All-map, Bool-cases, take, drop, inl, inr,
  arith,
}
use pulse_crm.Jobs.{BackgroundJob, before, insert_ordered, order}

pub before_total : (a b : BackgroundJob) → before a b ≡ false → before b a ≡ true
unfolding before
before_total a b h = ground arith

pub before_trans :
    (a b c : BackgroundJob) → before a b ≡ true → before b c ≡ true → before a c ≡ true
unfolding before
before_trans a b c h k = ground arith

-- Every row stands before all the later ones.
abbrev pub IsOrdered : List BackgroundJob → Type 0
IsOrdered [] = Unit
IsOrdered (j ∷ js) = All (λ k. before j k ≡ true) js × IsOrdered js

pub insert_ordered-All {κ} :
    (P : BackgroundJob → Type κ) (j : BackgroundJob) (js : List BackgroundJob)
    → P j
    → All P js
    → All P (insert_ordered j js)
unfolding insert_ordered
insert_ordered-All P j [] h hs = (h, tt)
insert_ordered-All P j (k ∷ ks) h (hk, hs) = elim (Bool-cases (before j k)) [
  | inl e ↦ rw e (h, (hk, hs))
  | inr e ↦ rw e (hk, insert_ordered-All P j ks h hs)
]

insert_ordered-IsOrdered :
    (j : BackgroundJob) (js : List BackgroundJob) → IsOrdered js → IsOrdered (insert_ordered j js)
unfolding insert_ordered
insert_ordered-IsOrdered j [] h = (tt, tt)
insert_ordered-IsOrdered j (k ∷ ks) (hk, h) = elim (Bool-cases (before j k)) [
  | inl e ↦ rw e ((e, All-map (λ m hm. before_trans j k m e hm) ks hk), (hk, h))
  | inr e ↦ rw e (
    insert_ordered-All (λ m. before k m ≡ true) j ks (before_total j k e) hk,
    insert_ordered-IsOrdered j ks h,
  )
]

pub order-IsOrdered : (js : List BackgroundJob) → IsOrdered (order js)
unfolding order
order-IsOrdered [] = tt
order-IsOrdered (j ∷ js) = insert_ordered-IsOrdered j (order js) (order-IsOrdered js)

insert_ordered-perm :
    (j : BackgroundJob) (js : List BackgroundJob) → Perm (insert_ordered j js) (j ∷ js)
unfolding insert_ordered
insert_ordered-perm j [] = Perm.refl (j ∷ [])
insert_ordered-perm j (k ∷ ks) = elim (Bool-cases (before j k)) [
  | inl e ↦ rw e (Perm.refl (j ∷ k ∷ ks))
  | inr e ↦ rw e (Perm.trans (Perm.cons k (insert_ordered-perm j ks)) (Perm.swap j k ks))
]

pub order-perm : (js : List BackgroundJob) → Perm (order js) js
unfolding order
order-perm [] = Perm.refl []
order-perm (j ∷ js) = Perm.trans (insert_ordered-perm j (order js)) (Perm.cons j (order-perm js))

pub order-All {κ} :
    (P : BackgroundJob → Type κ) (js : List BackgroundJob) → All P js → All P (order js)
unfolding order
order-All P [] h = tt
order-All P (j ∷ js) (hj, h) = insert_ordered-All P j (order js) hj (order-All P js h)

-- In an ordered list the first `n` rows stand before all the others.
pub take-before-drop :
    (n : ℕ) (js : List BackgroundJob)
    → IsOrdered js
    → All (λ k. All (λ j. before j k ≡ true) (take n js)) (drop n js)
take-before-drop zero js h = All-map {P = λ k. Unit {0}} (λ k _. tt) js (units js)
  where
    units : (ks : List BackgroundJob) → All (λ k. Unit {0}) ks
    units [] = tt
    units (k ∷ ks) = (tt, units ks)
take-before-drop (suc n) [] h = tt
take-before-drop (suc n) (j ∷ js) (hj, h) =
    both (drop n js) (drop-All n js hj) (take-before-drop n js h)
  where
    drop-All :
        (n : ℕ) (ks : List BackgroundJob)
        → All (λ k. before j k ≡ true) ks
        → All (λ k. before j k ≡ true) (drop n ks)
    drop-All zero ks p = p
    drop-All (suc n) [] p = tt
    drop-All (suc n) (k ∷ ks) p = drop-All n ks p.1

    both :
        (ks : List BackgroundJob)
        → All (λ k. before j k ≡ true) ks
        → All (λ k. All (λ i. before i k ≡ true) (take n js)) ks
        → All (λ k. (before j k ≡ true) × All (λ i. before i k ≡ true) (take n js)) ks
    both [] p q = tt
    both (k ∷ ks) (p, ps) (q, qs) = ((p, q), both ks ps qs)

-- Membership, both ways.
abbrev pub Sub : List BackgroundJob → List BackgroundJob → Type 0
Sub js ks = (k : BackgroundJob) → Memᴰ k js → Memᴰ k ks

Sub-cons : (j : BackgroundJob) (js ks : List BackgroundJob) → Sub js ks → Sub (j ∷ js) (j ∷ ks)
Sub-cons j js ks f k (Memᴰ.head e) = Memᴰ.head e
Sub-cons j js ks f k (Memᴰ.tail m) = Memᴰ.tail (f k m)

Sub-swap : (i j : BackgroundJob) (js : List BackgroundJob) → Sub (i ∷ j ∷ js) (j ∷ i ∷ js)
Sub-swap i j js k (Memᴰ.head e) = Memᴰ.tail (Memᴰ.head e)
Sub-swap i j js k (Memᴰ.tail (Memᴰ.head e)) = Memᴰ.head e
Sub-swap i j js k (Memᴰ.tail (Memᴰ.tail m)) = Memᴰ.tail (Memᴰ.tail m)

insert_ordered-Sub :
    (j : BackgroundJob) (js : List BackgroundJob)
    → Sub (insert_ordered j js) (j ∷ js) × Sub (j ∷ js) (insert_ordered j js)
unfolding insert_ordered
insert_ordered-Sub j [] = (λ k m. m, λ k m. m)
insert_ordered-Sub j (i ∷ is) = elim (Bool-cases (before j i)) [
  | inl e ↦ rw (e, insert_ordered) (λ k m. m, λ k m. m)
  | inr e ↦
      let (to, from) = insert_ordered-Sub j is in
      rw (e, insert_ordered)
        (
          λ k m. Sub-swap i j is k (Sub-cons i _ _ to k m),
          λ k m. Sub-cons i _ _ from k (Sub-swap j i is k m),
        )
]

pub order-Sub : (js : List BackgroundJob) → Sub (order js) js × Sub js (order js)
unfolding order
order-Sub [] = (λ k m. m, λ k m. m)
order-Sub (j ∷ js) =
    let (to, from) = order-Sub js in
    let (out, into) = insert_ordered-Sub j (order js) in
    (λ k m. Sub-cons j _ _ to k (out k m), λ k m. into k (Sub-cons j _ _ from k m))
