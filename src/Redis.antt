-- ===== src/Redis.antt =====
-- The Redis commands that the code uses: GET, SET with EX, DEL, and KEYS with a pattern that is a
-- prefix and a star. A key whose time to live has passed is not there.
use backend_assessment_chall.Prelude.{
  Bool, List, Option, [], arith, false, if◌then◌else◌, ltb, none, some, true, ℕ, ◌&&◌, ◌*◌, ◌+◌,
  ◌==◌, ◌∷◌, ◌≡◌,
}
use backend_assessment_chall.Prelude.Table.{erase_by, find_by}
use backend_assessment_chall.Prelude.Text.{Text, text_discrete}
use backend_assessment_chall.World.{Action, Stored, World, ok}

unfoldable pub stored_by_key : Text → List Stored → Option Stored
unfolding find_by
stored_by_key = find_by text_discrete (λ s. s.key)

abbrev pub live_value : ℕ → Option Stored → Option Text
live_value clock none = none
live_value clock (some s) = if ltb clock s.expires_at then some s.value else none

-- `redis.get(key)`
unfoldable pub redis_get : Text → Action (Option Text)
redis_get key w = (ok (live_value w.clock (stored_by_key key w.redis)), w)

-- `redis.set(key, value, 'EX', seconds)`
unfoldable pub redis_set : Text → Text → ℕ → Action (Unit {0})
unfolding erase_by
redis_set key value seconds w =
    (ok tt, record w { redis = stored ∷ erase_by text_discrete (λ s. s.key) key w.redis })
  where
    stored : Stored
    stored = record { key = key; value = value; expires_at = w.clock + 1000 * seconds }

-- `redis.del(...keys)`
unfoldable pub erase_all : List Text → List Stored → List Stored
unfolding erase_by
erase_all [] rows = rows
erase_all (key ∷ keys) rows = erase_by text_discrete (λ s. s.key) key (erase_all keys rows)

unfoldable pub redis_del : List Text → Action (Unit {0})
unfolding erase_all
redis_del keys w = (ok tt, record w { redis = erase_all keys w.redis })

unfoldable pub has_prefix : Text → Text → Bool
has_prefix [] text = true
has_prefix (c ∷ prefix) [] = false
has_prefix (c ∷ prefix) (t ∷ text) = (c == t) && has_prefix prefix text

unfoldable pub keys_with_prefix : ℕ → Text → List Stored → List Text
unfolding has_prefix
keys_with_prefix clock prefix [] = []
keys_with_prefix clock prefix (s ∷ rows) =
    if has_prefix prefix s.key && ltb clock s.expires_at
    then s.key ∷ keys_with_prefix clock prefix rows
    else keys_with_prefix clock prefix rows

-- `redis.keys(prefix + '*')`
unfoldable pub redis_keys : Text → Action (List Text)
unfolding keys_with_prefix
redis_keys prefix w = (ok (keys_with_prefix w.clock prefix w.redis), w)

-- What is read back after a write, as long as it lives.
pub stored_by_key-set :
    (key value : Text) (seconds : ℕ) (w : World)
    → stored_by_key key (redis_set key value seconds w).1.redis
      ≡ some (record { key = key; value = value; expires_at = w.clock + 1000 * seconds })
unfolding redis_set stored_by_key find_by
stored_by_key-set key value seconds w = ground arith
