-- ===== src/Auth/Sessions.antt =====
-- Sessions in Redis: what `revokeAllSessions` takes away, and what it leaves.
use backend_assessment_chall.Prelude.{
  Bool, List, Option, [], arith, false, if◌then◌else◌, ite, none, not, refl, true, ℕ, ◌&&◌, ◌++◌,
  ◌==◌, ◌∷◌, ◌≡◌, ◌≢◌,
}
use backend_assessment_chall.Auth.{refresh_key, revoke_all_sessions, session_prefix}
use backend_assessment_chall.Prelude.Table.{find_by, find_by-erase_by_ne, find_by-erase_by_self}
use backend_assessment_chall.Prelude.Text.{Text, codes, text_discrete}
use backend_assessment_chall.Redis.{
  erase_all, has_prefix, keys_with_prefix, live_value, redis_del, redis_keys, stored_by_key,
}
use backend_assessment_chall.World.{Stored, World}

-- What Redis has for the session now.
abbrev pub session : Text → Text → World → Option Text
session user_id jti w = live_value w.clock (stored_by_key (refresh_key user_id jti) w.redis)

abbrev member : Text → List Text → Bool
member k [] = false
member k (x ∷ xs) = ite (text_discrete x k) true (member k xs)

stored_by_key-erase_all :
    (k : Text) (keys : List Text) (rows : List Stored)
    → stored_by_key k (erase_all keys rows) ≡ (if member k keys then none else stored_by_key k rows)
unfolding erase_all stored_by_key
stored_by_key-erase_all k [] rows = refl
stored_by_key-erase_all k (x ∷ xs) rows = ground (
  arith,
  stored_by_key-erase_all k xs rows,
  find_by-erase_by_self text_discrete (λ (s : Stored). s.key) k (erase_all xs rows),
  find_by-erase_by_ne text_discrete (λ (s : Stored). s.key) k x (erase_all xs rows),
)

-- A key with the prefix that is not listed is not there.
unlisted_key :
    (clock : ℕ) (prefix k : Text) (rows : List Stored)
    → has_prefix prefix k ≡ true
    → member k (keys_with_prefix clock prefix rows) ≡ false
    → live_value clock (stored_by_key k rows) ≡ none
unfolding keys_with_prefix stored_by_key find_by
unlisted_key clock prefix k [] h m = refl
unlisted_key clock prefix k (s ∷ rows) h m = ground (arith, unlisted_key clock prefix k rows h)

listed_prefix :
    (clock : ℕ) (prefix k : Text) (rows : List Stored)
    → has_prefix prefix k ≡ false
    → member k (keys_with_prefix clock prefix rows) ≡ false
unfolding keys_with_prefix
listed_prefix clock prefix k [] h = refl
listed_prefix clock prefix k (s ∷ rows) h = ground (arith, listed_prefix clock prefix k rows h)

has_prefix-append : (a p t : Text) → has_prefix (a ++ p) (a ++ t) ≡ has_prefix p t
unfolding has_prefix
has_prefix-append [] p t = refl
has_prefix-append (c ∷ a) p t = ground (arith, has_prefix-append a p t)

abbrev pub colon_free : Text → Bool
colon_free [] = true
colon_free (c ∷ cs) = not (c == 58) && colon_free cs

-- A colon ends the first part of a key.
has_prefix-colon :
    (u v t : Text)
    → colon_free u ≡ true
    → colon_free v ≡ true
    → has_prefix (u ++ codes ":") (v ++ (codes ":" ++ t)) ≡ true
    → v ≡ u
unfolding has_prefix
has_prefix-colon [] [] t fu fv h = refl
has_prefix-colon [] (d ∷ v) t fu fv h = ground arith
has_prefix-colon (c ∷ u) [] t fu fv h = ground arith
has_prefix-colon (c ∷ u) (d ∷ v) t fu fv h = ground (arith, has_prefix-colon u v t)

own_prefix : (u t : Text) → has_prefix (session_prefix u) (refresh_key u t) ≡ true
unfolding session_prefix refresh_key has_prefix
own_prefix u t = has_prefix-append u (codes ":") (codes ":" ++ t)

other_prefix :
    (u v t : Text)
    → colon_free u ≡ true
    → colon_free v ≡ true
    → v ≢ u
    → has_prefix (session_prefix u) (refresh_key v t) ≡ false
unfolding session_prefix refresh_key has_prefix
other_prefix u v t fu fv ne = ground (arith, has_prefix-colon u v t fu fv)

-- After all sessions of a user are revoked, none of them is left, whatever its token's id, and the
-- sessions of every other user are as before. It is supposed that the ids of the users have no
-- colon.
pub revoke_all_sessions-session :
    (user_id other_id jti : Text) (w : World)
    → colon_free user_id ≡ true
    → colon_free other_id ≡ true
    → session other_id jti (revoke_all_sessions user_id w).1
      ≡ ite (text_discrete other_id user_id) none (session other_id jti w)
unfolding revoke_all_sessions redis_keys redis_del
revoke_all_sessions-session user_id other_id jti w fu fo = ground (
  arith,
  stored_by_key-erase_all (refresh_key other_id jti)
      (keys_with_prefix w.clock (session_prefix user_id) w.redis) w.redis,
  unlisted_key w.clock (session_prefix user_id) (refresh_key other_id jti) w.redis,
  listed_prefix w.clock (session_prefix user_id) (refresh_key other_id jti) w.redis,
  own_prefix other_id jti,
  other_prefix user_id other_id jti fu fo,
)
