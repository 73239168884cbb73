-- ===== src/Policy/Strength.antt =====
-- What `Strongest` returns: the methods given, each once, strongest first.
use marketplace.Base.{ℕ, ◌<◌, ◌≡◌, ◌&&◌, List, [], ◌∷◌, arith, ltb, All}
use marketplace.Policy.{Method, key, app, email, recovery, contains, strongest}

-- A method's place in the source's list, from the strongest.
abbrev pub rank : Method → ℕ
rank key = 0
rank app = 1
rank email = 2
rank recovery = 3
rank (Method.other n) = 4

-- Whether the ranks strictly rise along a list, which is then in order and without repetition.
abbrev pub Rises : List Method → Type 0
Rises [] = Unit
Rises (m ∷ ms) = All (λ n. rank m < rank n) ms × Rises ms

contains-strongest :
    (methods : List Method) (m : Method)
    → contains (strongest methods) m ≡ (ltb (rank m) 3 && contains methods m)
unfolding strongest
contains-strongest methods key = ground arith
contains-strongest methods app = ground arith
contains-strongest methods email = ground arith
contains-strongest methods _ = ground arith

-- The list rises from the strongest method to the weakest, with no method twice, and a key, an app
-- or an e-mail code is in it exactly when it is among the methods given, and no other method is.
pub strongest_lem :
    (methods : List Method)
    → Rises (strongest methods)
      × ((m : Method) → contains (strongest methods) m ≡ (ltb (rank m) 3 && contains methods m))
unfolding strongest
strongest_lem methods = (ground arith, contains-strongest methods)
