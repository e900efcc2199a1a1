-- ===== src/Events/Tests.antt =====
-- The recipients of a change of access.
use pulse_crm.Prelude.{◌≡◌, refl, none, some, [], ◌∷◌}
use pulse_crm.Events.{recipients, add_recipient}

recipients_of_three : recipients (some 5 ∷ none ∷ some 3 ∷ some 5 ∷ []) ≡ 3 ∷ 5 ∷ []
unfolding recipients add_recipient
recipients_of_three = refl
