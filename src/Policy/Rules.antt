-- ===== src/Policy/Rules.antt =====
-- What the policy of factorpolicy.go promises of step-ups, for every kind and action.
use marketplace.Base.{◌≡◌, ◌↔◌, ◌⊎◌, Bool, false, arith}
use marketplace.Policy.{UserKind, buyer, staff, store, Action, password, factors, step_up_for}

-- The kinds that the policy names.
abbrev pub IsKnown : UserKind → Type 0
IsKnown kind = (kind ≡ buyer) ⊎ ((kind ≡ store) ⊎ (kind ≡ staff))

-- An action is asked for a step-up, unless it changes the password or the factors of a buyer's, a
-- store's or a staff account that has no second factor; a kind that the policy does not know is
-- always asked.
pub step_up_for_asked_iff :
    (kind : UserKind) (action : Action) (has_factor : Bool)
    → ((step_up_for kind action has_factor).asked ≡ false)
      ↔ (((action ≡ password) ⊎ (action ≡ factors)) × (has_factor ≡ false) × IsKnown kind)
unfolding step_up_for
step_up_for_asked_iff kind action has_factor = ground arith
