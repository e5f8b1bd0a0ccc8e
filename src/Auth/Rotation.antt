-- ===== src/Auth/Rotation.antt =====
-- Issuing, rotating and ending sessions.
use backend_assessment_chall.Prelude.{[], arith, refl, some, suc, ℕ, ◌*◌, ◌++◌, ◌+◌, ◌∷◌, ◌≡◌, ◌≢◌}
use backend_assessment_chall.Auth.{issue_token_pair, refresh_key}
use backend_assessment_chall.Auth.Ttl.{ttl_to_seconds}
use backend_assessment_chall.Auth.Types.{AuthTokensDto, Crypto, JwtConfig}
use backend_assessment_chall.Prelude.Table.{find_by, find_by-erase_by_ne}
use backend_assessment_chall.Prelude.Text.{Text, codes, text_discrete}
use backend_assessment_chall.Redis.{redis_set, stored_by_key}
use backend_assessment_chall.Schema.{Role}
use backend_assessment_chall.World.{Stored, World, ok, random_uuid}
use backend_assessment_chall.World.Ensures.{Outcome}

append_cancel : (s a b : Text) → s ++ a ≡ s ++ b → a ≡ b
append_cancel [] a b h = h
append_cancel (c ∷ s) a b h = append_cancel s a b (ground arith)

pub refresh_key-injective : (u a b : Text) → refresh_key u a ≡ refresh_key u b → a ≡ b
unfolding refresh_key
refresh_key-injective u a b h = append_cancel (codes ":") a b (
    append_cancel u (codes ":" ++ a) (codes ":" ++ b)
      (append_cancel (codes "refresh:") (u ++ (codes ":" ++ a)) (u ++ (codes ":" ++ b)) h))

module _ (crypto : Crypto) (config : JwtConfig) where
  open crypto use {sign_access, sign_refresh, verify_refresh}

  -- The pair of tokens for a user, at the state that it is issued in.
  abbrev pub pair_for : Text → Role → World → AuthTokensDto
  pair_for user_id role w = record {
    access_token =
        sign_access config.access_secret config.access_ttl w.clock
          (record { sub = user_id; role = role });
    refresh_token =
        sign_refresh config.refresh_secret config.refresh_ttl w.clock
          (record { sub = user_id; jti = w.uuids w.drawn });
  }

  -- A session that lives for `seconds` was added, and the reply is its pair of tokens.
  pub record Issued (user_id : Text) (role : Role) (seconds : ℕ) (w : World) (r : AuthTokensDto)
      (w' : World) : Type 0 where
    pub reply : r ≡ pair_for user_id role w
    pub stored :
        stored_by_key (refresh_key user_id (w.uuids w.drawn)) w'.redis
        ≡ some (record {
          key = refresh_key user_id (w.uuids w.drawn);
          value = codes "1";
          expires_at = w.clock + 1000 * seconds;
        })
    pub others :
        (k : Text)
        → k ≢ refresh_key user_id (w.uuids w.drawn)
        → stored_by_key k w'.redis ≡ stored_by_key k w.redis
    pub same_db : w'.db ≡ w.db
    pub same_clock : w'.clock ≡ w.clock

  -- The state after a session was added.
  abbrev pub issued : Text → ℕ → World → World
  issued user_id seconds w =
      (redis_set (refresh_key user_id (w.uuids w.drawn)) (codes "1") seconds
        (record w { drawn = w.drawn + 1 })).1

  pub issuing :
      (user_id : Text) (role : Role) (seconds : ℕ) (w : World)
      → ttl_to_seconds config.refresh_ttl ≡ some (suc seconds)
      → issue_token_pair crypto config user_id role w
        ≡ (ok (pair_for user_id role w), issued user_id (suc seconds) w)
  unfolding issue_token_pair random_uuid redis_set
  issuing user_id role seconds w ttl = ground arith

  pub issued-Issued :
      (user_id : Text) (role : Role) (seconds : ℕ) (w : World)
      → Issued user_id role seconds w (pair_for user_id role w) (issued user_id seconds w)
  unfolding redis_set stored_by_key find_by
  issued-Issued user_id role seconds w = record {
    reply = refl;
    stored = ground arith;
    others = λ k ne. ground (
      arith,
      find_by-erase_by_ne text_discrete (λ (s : Stored). s.key) k
          (refresh_key user_id (w.uuids w.drawn)) w.redis,
    );
    same_db = refl;
    same_clock = refl;
  }

  -- With a lifetime that can be read and is not 0, issuing a pair of tokens never throws, and adds
  -- the session of the refresh token, which lives for that time.
  pub issue_token_pair-Issued :
      (user_id : Text) (role : Role) (seconds : ℕ) (w : World)
      → ttl_to_seconds config.refresh_ttl ≡ some (suc seconds)
      → Outcome
          (λ e w'. ⊥)
          (Issued user_id role (suc seconds) w)
          (issue_token_pair crypto config user_id role w)
  issue_token_pair-Issued user_id role seconds w ttl =
      rw (issuing user_id role seconds w ttl) (issued-Issued user_id role (suc seconds) w)
