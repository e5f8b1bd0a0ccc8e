-- ===== src/Api/Effects/States.antt =====
-- The state after the parts of a handler (Api/Handlers.antt).
use backend_assessment_chall.Prelude.{
  Bool, Option, [], arith, false, none, refl, some, suc, true, ℕ, ◌∷◌, ◌≡◌,
}
use backend_assessment_chall.Api.Handlers.{
  answering, for_current_user, get_me_limited, get_me_taking,
}
use backend_assessment_chall.Api.Types.{Answer, Edge}
use backend_assessment_chall.Auth.Types.{CurrentUserPayload}
use backend_assessment_chall.FlashSale.{get_event}
use backend_assessment_chall.FlashSale.Queries.{find_event}
use backend_assessment_chall.Prelude.Int.{negsuc, pos, ℤ}
use backend_assessment_chall.Prelude.Text.{Text}
use backend_assessment_chall.Wallet.{default_ledger_limit}
use backend_assessment_chall.Wallet.Reads.{get_me, get_me_from_end}
use backend_assessment_chall.World.{
  Action, Exception, Result, World, err, ok, or_throw, throw_if, ◌>>=◌, ◌>>◌,
}

pub after_test :
    (P : World → Type 0) (c : Bool) (bad : Exception) (k : Action Answer) (w : World)
    → P w
    → P (k w).1
    → P ((throw_if c bad >> k) w).1
after_test P true bad k w kept f = kept
after_test P false bad k w kept f = f

module _ {A : Type 0} (P : World → Type 0) where
  pub after_body :
      (o : Option A) (bad : Exception) (k : A → Action Answer) (w : World)
      → P w
      → ((a : A) → o ≡ some a → P (k a w).1)
      → P ((or_throw o bad >>= k) w).1
  after_body none bad k w kept f = kept
  after_body (some a) bad k w kept f = f a refl

  answered-state :
      (f : A → Answer) (x : Result A × World)
      → P x.1
      → P
          (elim x.0 as (λ r. Result Answer × World) [
            | ok a ↦ (ok (f a), x.1)
            | err e ↦ (err e, x.1)
          ]).1
  answered-state f (ok a, w) p = p
  answered-state f (err e, w) p = p

  pub answering-state :
      (f : A → Answer) (m : Action A) (w : World) → P (m w).1 → P (answering f m w).1
  answering-state f m w p = answered-state f (m w) p

pub for_current_user-state :
    (P : World → Type 0) (u : Option CurrentUserPayload) (k : Text → Action Answer) (w : World)
    → P w
    → ((user : CurrentUserPayload) → u ≡ some user → P (k user.user_id w).1)
    → P (for_current_user u k w).1
unfolding for_current_user
for_current_user-state P none k w kept f = kept
for_current_user-state P (some user) k w kept f = f user refl

get_me-state : (user_id : Text) (n : ℕ) (w : World) → (get_me user_id n w).1 ≡ w
unfolding get_me
get_me-state user_id n w = ground arith

get_me_from_end-state : (user_id : Text) (n : ℕ) (w : World) → (get_me_from_end user_id n w).1 ≡ w
unfolding get_me_from_end
get_me_from_end-state user_id n w = ground arith

get_me_taking-state :
    (user_id : Text) (n : Option ℤ) (w : World) → (get_me_taking user_id n w).1 ≡ w
unfolding get_me_taking
get_me_taking-state user_id none w = refl
get_me_taking-state user_id (some (pos n)) w = get_me-state user_id n w
get_me_taking-state user_id (some (negsuc n)) w = get_me_from_end-state user_id (suc n) w

pub get_me_limited-state :
    (edge : Edge) (user_id : Text) (limit : Option Text) (w : World)
    → (get_me_limited edge user_id limit w).1 ≡ w
unfolding get_me_limited
get_me_limited-state edge user_id none w = get_me-state user_id default_ledger_limit w
get_me_limited-state edge user_id (some []) w = get_me-state user_id default_ledger_limit w
get_me_limited-state edge user_id (some (c ∷ cs)) w =
    get_me_taking-state user_id (edge.parse_int (c ∷ cs)) w

pub get_event-state : (id : Text) (w : World) → (get_event id w).1 ≡ w
unfolding get_event find_event
get_event-state id w = ground arith
