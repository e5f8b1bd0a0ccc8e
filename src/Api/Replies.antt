-- ===== src/Api/Replies.antt =====
-- The statuses of the replies: what the services throw, and what the routes answer.
pub mod Money
pub mod Purchases
pub mod Sessions
pub mod Parts
pub mod Statuses
-- The status is 500 or one of those listed.
use backend_assessment_chall.Prelude.{Bool, List, [], true, ℕ, ◌==◌, ◌||◌, ◌∷◌, ◌≡◌}
use backend_assessment_chall.Http.{status_of_exception}
use backend_assessment_chall.World.{Result, World}
use backend_assessment_chall.World.Ensures.{Outcome}

abbrev pub is_listed : ℕ → List ℕ → Bool
is_listed status [] = status == 500
is_listed status (s ∷ rest) = (status == s) || is_listed status rest

-- What is thrown, if anything, has one of the statuses.
abbrev pub Throws : {A : Type 0} → List ℕ → Result A × World → Type 0
Throws statuses x =
    Outcome (λ e w. is_listed (status_of_exception e) statuses ≡ true) (λ a w. Unit {0}) x
