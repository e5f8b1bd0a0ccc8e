-- ===== src/Api/Replies/Parts.antt =====
-- What the parts of a handler (Api/Handlers.antt) throw.
use backend_assessment_chall.Prelude.{
  Bool, List, Option, [], arith, false, none, refl, some, suc, true, ℕ, ◌∷◌, ◌≡◌,
}
use backend_assessment_chall.Api.Handlers.{
  answering, for_current_user, get_me_limited, get_me_taking, invalid_body, invalid_uuid,
}
use backend_assessment_chall.Api.Replies.{Throws, is_listed}
use backend_assessment_chall.Api.Replies.Money.{get_me-Throws, get_me_from_end-Throws}
use backend_assessment_chall.Api.Types.{Answer, Edge}
use backend_assessment_chall.Auth.Types.{CurrentUserPayload}
use backend_assessment_chall.Prelude.Int.{negsuc, pos, ℤ}
use backend_assessment_chall.Prelude.Text.{Text}
use backend_assessment_chall.Wallet.{default_ledger_limit}
use backend_assessment_chall.World.{Action, Result, World, err, ok, or_throw, throw_if, ◌>>=◌, ◌>>◌}

module _ {A : Type 0} where
  pub Throws-more :
      (s : ℕ) (rest : List ℕ) (x : Result A × World) → Throws rest x → Throws (s ∷ rest) x
  Throws-more s rest (ok a, w) p = tt
  Throws-more s rest (err e, w) p = ground arith

  pub body-Throws :
      (rest : List ℕ) (o : Option A) (k : A → Action Answer) (w : World)
      → ((a : A) → Throws (400 ∷ rest) (k a w))
      → Throws (400 ∷ rest) ((or_throw o invalid_body >>= k) w)
  body-Throws rest none k w f = refl
  body-Throws rest (some a) k w f = f a

  answered-Throws :
      (statuses : List ℕ) (f : A → Answer) (x : Result A × World)
      → Throws statuses x
      → Throws statuses (elim x.0 as (λ r. Result Answer × World) [
        | ok a ↦ (ok (f a), x.1)
        | err e ↦ (err e, x.1)
      ])
  answered-Throws statuses f (ok a, w) p = tt
  answered-Throws statuses f (err e, w) p = p

  pub answering-Throws :
      (statuses : List ℕ) (f : A → Answer) (m : Action A) (w : World)
      → Throws statuses (m w)
      → Throws statuses (answering f m w)
  answering-Throws statuses f m w p = answered-Throws statuses f (m w) p

is_listed_500 : (statuses : List ℕ) → is_listed 500 statuses ≡ true
is_listed_500 [] = refl
is_listed_500 (s ∷ rest) = ground (arith, is_listed_500 rest)

pub for_current_user-Throws :
    (statuses : List ℕ) (u : Option CurrentUserPayload) (k : Text → Action Answer) (w : World)
    → ((id : Text) → Throws statuses (k id w))
    → Throws statuses (for_current_user u k w)
unfolding for_current_user
for_current_user-Throws statuses none k w f = is_listed_500 statuses
for_current_user-Throws statuses (some user) k w f = f user.user_id

get_me_taking-Throws :
    (user_id : Text) (n : Option ℤ) (w : World) → Throws (404 ∷ []) (get_me_taking user_id n w)
unfolding get_me_taking
get_me_taking-Throws user_id none w = refl
get_me_taking-Throws user_id (some (pos n)) w = get_me-Throws user_id n w
get_me_taking-Throws user_id (some (negsuc n)) w = get_me_from_end-Throws user_id (suc n) w

pub get_me_limited-Throws :
    (edge : Edge) (user_id : Text) (limit : Option Text) (w : World)
    → Throws (404 ∷ []) (get_me_limited edge user_id limit w)
unfolding get_me_limited
get_me_limited-Throws edge user_id none w = get_me-Throws user_id default_ledger_limit w
get_me_limited-Throws edge user_id (some []) w = get_me-Throws user_id default_ledger_limit w
get_me_limited-Throws edge user_id (some (c ∷ cs)) w =
    get_me_taking-Throws user_id (edge.parse_int (c ∷ cs)) w

pub test-Throws :
    (rest : List ℕ) (c : Bool) (k : Action Answer) (w : World)
    → Throws (400 ∷ rest) (k w)
    → Throws (400 ∷ rest) ((throw_if c invalid_uuid >> k) w)
test-Throws rest true k w p = refl
test-Throws rest false k w p = p
