-- ===== src/Messaging/Routes.antt =====
-- The rows of the query for a conversation, and the first of them.
use mathlib.Core.Path.{subst}
use mathlib.Core.List.{Memᴰ}
use pulse_crm.Prelude.Table.Laws.{find?-test, find?-none-All}
use pulse_crm.Prelude.Table.Members.{find?-mem, All-mem}
use pulse_crm.Prelude.{
  ℕ, ◌≡◌, refl, sym, ◌∙◌, ◌⊎◌, inl, inr, Bool, true, false, ◌&&◌, some, List, [], ◌∷◌, All, All-map,
  ◌==◌, arith, Bool-cases, Option-cases,
}
use pulse_crm.Messaging.{
  ChannelConnection, Conversation, ConversationRoute, usable, connection_of, add_route, routes,
  precedes, better, first_route,
}
use pulse_crm.Messaging.Order.{precedes_asymm, precedes_irrefl, precedes_trans}

-- No route's conversation comes before the one of `r`.
abbrev pub IsFirst : ConversationRoute → List ConversationRoute → Type 0
IsFirst r xs = All (λ y. precedes y.conversation r.conversation ≡ false) xs

better-cases :
    (x y : ConversationRoute)
    → ((precedes y.conversation x.conversation ≡ true) × (better x (some y) ≡ y))
      ⊎ ((precedes y.conversation x.conversation ≡ false) × (better x (some y) ≡ x))
unfolding better
better-cases x y = elim (Bool-cases (precedes y.conversation x.conversation)) [
  | inl e ↦ inl (e, rw e refl)
  | inr e ↦ inr (e, rw e refl)
]

better-IsFirst :
    (x y r : ConversationRoute) (xs : List ConversationRoute)
    → Memᴰ y xs
    → IsFirst y xs
    → better x (some y) ≡ r
    → Memᴰ r (x ∷ xs) × IsFirst r (x ∷ xs)
better-IsFirst x y r xs m first b = elim (better-cases x y) [
  | inl (e, t) ↦
      let same : y ≡ r = sym t ∙ b in
      subst (λ q. Memᴰ q (x ∷ xs) × IsFirst q (x ∷ xs)) same
        (Memᴰ.tail m, (precedes_asymm y.conversation x.conversation e, first))
  | inr (e, t) ↦
      let same : x ≡ r = sym t ∙ b in
      subst (λ q. Memᴰ q (x ∷ xs) × IsFirst q (x ∷ xs)) same
        (
          Memᴰ.head refl,
          (
            precedes_irrefl x.conversation,
            All-map (λ z h. precedes_trans z.conversation y.conversation x.conversation h e) xs
                first,
          ),
        )
]

pub first_route-IsFirst :
    (xs : List ConversationRoute) (r : ConversationRoute)
    → first_route xs ≡ some r
    → Memᴰ r xs × IsFirst r xs
unfolding first_route better
first_route-IsFirst [] r h = cc h
first_route-IsFirst (x ∷ []) r h =
    let same : x ≡ r = ground (arith, h) in
    rw (← same) (Memᴰ.head refl, (precedes_irrefl x.conversation, tt))
first_route-IsFirst (x ∷ z ∷ zs) r h =
    let y = better z (first_route zs) in
    let (m, first) = first_route-IsFirst (z ∷ zs) y refl in
    better-IsFirst x y r (z ∷ zs) m first (ground (arith, h))

-- What the rows of the query have, for a condition on their conversations.
pub routes-All :
    (P : Conversation → Type 0) (workspace_id : ℕ) (connections : List ChannelConnection)
    (xs : List Conversation)
    → All P xs
    → All
        (λ x.
          P x.conversation
          × Memᴰ x.connection connections
          × (x.connection.id ≡ x.conversation.channel_connection_id)
          × (usable workspace_id x.connection ≡ true))
        (routes workspace_id connections xs)
unfolding routes add_route connection_of
routes-All P workspace_id connections [] h = tt
routes-All P workspace_id connections (x ∷ xs) (hx, h) =
    elim (Option-cases (connection_of workspace_id connections x)) [
      | inl e ↦ rw e (routes-All P workspace_id connections xs h)
      | inr (y, e) ↦
          let t =
            find?-test (λ y. y.id == x.channel_connection_id && usable workspace_id y) connections
              e in
          let m =
            find?-mem (λ y. y.id == x.channel_connection_id && usable workspace_id y) connections
              e in
          rw e (
            (hx, m, ground (arith, t), ground (arith, t)),
            routes-All P workspace_id connections xs h,
          )
    ]

-- A conversation with a usable connection has a row in the query.
pub routes-listed :
    (workspace_id : ℕ) (connections : List ChannelConnection) (xs : List Conversation)
    (x : Conversation) (y : ChannelConnection)
    → Memᴰ x xs
    → Memᴰ y connections
    → y.id ≡ x.channel_connection_id
    → usable workspace_id y ≡ true
    → (z : ConversationRoute) × Memᴰ z (routes workspace_id connections xs) × (z.conversation ≡ x)
unfolding routes add_route connection_of
routes-listed workspace_id connections [] x y m k e u = elim m [ ]
routes-listed workspace_id connections (w ∷ xs) x y (Memᴰ.head same) k e u =
    let here : (ChannelConnection → Bool) =
      λ v. v.id == w.channel_connection_id && usable workspace_id v in
    elim (Option-cases (connection_of workspace_id connections w)) [
      | inl missing ↦
          let none_here = All-mem _ (find?-none-All here connections missing) k in
          let e' : y.id ≡ w.channel_connection_id = rw same at e in
          absurd (ground (arith, none_here, e', u))
      | inr (v, found) ↦
          rw found (record { conversation = w; connection = v }, Memᴰ.head refl, sym same)
    ]
routes-listed workspace_id connections (w ∷ xs) x y (Memᴰ.tail m) k e u =
    let (z, mz, is) = routes-listed workspace_id connections xs x y m k e u in
    elim (Option-cases (connection_of workspace_id connections w)) [
      | inl missing ↦ rw missing (z, mz, is)
      | inr (v, found) ↦ rw found (z, Memᴰ.tail mz, is)
    ]
