-- ===== src/Messaging/Order.antt =====
-- backend/app/integrations/messaging.py: the order of a deal's conversations is a strict weak order.
use pulse_crm.Prelude.{
  ℕ, ◌≡◌, refl, sym, ◌∙◌, suc, Bool, true, false, ◌&&◌, ◌||◌, Option, none, some, ◌==◌, ltb, opt_eq,
  arith,
}
use pulse_crm.Messaging.{Conversation, before_time, precedes}

-- The order is that of numbers: a conversation without messages comes last.
abbrev pub rank : Option ℕ → ℕ
rank none = 0
rank (some a) = suc a

pub before_time_lem : (a b : Option ℕ) → before_time a b ≡ ltb (rank b) (rank a)
unfolding before_time
before_time_lem none b = ground arith
before_time_lem (some a) none = ground arith
before_time_lem (some a) (some b) = ground arith

pub opt_eq-rank : (a b : Option ℕ) → opt_eq a b ≡ (rank a == rank b)
opt_eq-rank none none = ground arith
opt_eq-rank none (some b) = ground arith
opt_eq-rank (some a) none = ground arith
opt_eq-rank (some a) (some b) = ground arith

abbrev pub later : ℕ → ℕ → ℕ → ℕ → Bool
later a u b v = ltb b a || (a == b && ltb v u)

pub precedes_lem :
    (x y : Conversation)
    → precedes x y
      ≡ later (rank x.last_message_at) x.updated_at (rank y.last_message_at) y.updated_at
unfolding precedes
precedes_lem x y =
    rw
      (
        before_time_lem x.last_message_at y.last_message_at,
        opt_eq-rank x.last_message_at y.last_message_at,
      )
      refl

pub later_asymm : (a u b v : ℕ) → later a u b v ≡ true → later b v a u ≡ false
later_asymm a u b v h = ground (arith, h)

pub later_irrefl : (a u : ℕ) → later a u a u ≡ false
later_irrefl a u = ground arith

pub later_trans :
    (a u b v c w : ℕ) → later a u b v ≡ false → later b v c w ≡ false → later a u c w ≡ false
later_trans a u b v c w h k = ground (arith, h, k)

pub precedes_asymm : (x y : Conversation) → precedes x y ≡ true → precedes y x ≡ false
precedes_asymm x y h =
    precedes_lem y x
    ∙ later_asymm (rank x.last_message_at) x.updated_at (rank y.last_message_at) y.updated_at
        (sym (precedes_lem x y) ∙ h)

pub precedes_irrefl : (x : Conversation) → precedes x x ≡ false
precedes_irrefl x = precedes_lem x x ∙ later_irrefl (rank x.last_message_at) x.updated_at

pub precedes_trans :
    (x y z : Conversation) → precedes x y ≡ false → precedes y z ≡ false → precedes x z ≡ false
precedes_trans x y z h k =
    precedes_lem x z
    ∙ later_trans (rank x.last_message_at) x.updated_at (rank y.last_message_at) y.updated_at
        (rank z.last_message_at) z.updated_at (sym (precedes_lem x y) ∙ h)
        (sym (precedes_lem y z) ∙ k)
