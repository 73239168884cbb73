-- ===== src/Policy.antt =====
-- internal/identity/factorpolicy.go: which methods a kind of user may enrol and answer with, and
-- what a sensitive action asks of a session. The source's enumerations are strings, so each type
-- keeps a constructor for a string that the source does not name.
pub mod Rules
pub mod Strength
use marketplace.Base.{
  ℕ, Bool, true, false, not, ◌&&◌, ◌||◌, List, [], ◌∷◌, ◌++◌, ◌==◌, if◌then◌else◌,
}

pub data UserKind : Type 0 where
  buyer staff store : UserKind
  other : ℕ → UserKind

-- `recovery` answers a challenge and is no kind of second factor (challenge.go, MethodRecovery).
pub data Method : Type 0 where
  key app email recovery : Method
  other : ℕ → Method

pub data Use : Type 0 where
  enrol verify : Use
  other : ℕ → Use

-- `nothing` is the empty action of a challenge opened at sign-in.
pub data Action : Type 0 where
  password factors add_card change_email store_action nothing : Action
  other : ℕ → Action

pub record StepUp : Type 0 where
  pub asked : Bool
  pub email : Bool

-- `==` on the strings that the source's enumerations are.
unfoldable pub same_method : Method → Method → Bool
same_method key key = true
same_method app app = true
same_method email email = true
same_method recovery recovery = true
same_method (Method.other m) (Method.other n) = m == n
same_method _ _ = false

-- slices.Contains
unfoldable pub contains : List Method → Method → Bool
contains [] m = false
contains (x ∷ xs) m = same_method x m || contains xs m

is_use : Use → Bool
is_use enrol = true
is_use verify = true
is_use (Use.other _) = false

kind_permits : UserKind → Method → Bool
kind_permits buyer m = true
kind_permits store m = true
kind_permits staff m = not (same_method m email)
kind_permits (UserKind.other _) m = false

unfoldable pub permits : UserKind → Method → Use → Bool
unfolding contains same_method is_use kind_permits
permits kind method purpose =
    if not (contains (key ∷ app ∷ email ∷ []) method) || not (is_use purpose)
    then false
    else kind_permits kind method

-- `kind != KindBuyer && kind != KindStore`
unfoldable pub required : UserKind → Bool
required buyer = false
required store = false
required _ = true

is_staff : UserKind → Bool
is_staff staff = true
is_staff _ = false

unfoldable pub step_up_for : UserKind → Action → Bool → StepUp
unfolding permits required is_staff
step_up_for kind password has_factor = record {
  asked = has_factor || (required kind && not (is_staff kind));
  email = false;
}
step_up_for kind factors has_factor = record {
  asked = has_factor || (required kind && not (is_staff kind));
  email = false;
}
step_up_for kind _ has_factor = record { asked = true; email = permits kind email verify }

-- The loop of `Strongest` over the methods of `strength`.
in_order : List Method → List Method → List Method
in_order methods [] = []
in_order methods (m ∷ ms) =
    if contains methods m then m ∷ in_order methods ms else in_order methods ms

unfoldable pub strongest : List Method → List Method
unfolding in_order contains same_method
strongest methods = in_order methods (key ∷ app ∷ email ∷ [])

-- stepup.go: ParseAction
unfoldable pub parse_action : Action → Action × Bool
parse_action (Action.other n) = (Action.other n, false)
parse_action nothing = (nothing, false)
parse_action action = (action, true)
