-- ===== src/Health.antt =====
-- src/health/health.controller.ts: `check`, with the probe of the data base in
-- src/prisma/prisma.service.ts. A probe is what it awaits: none, if that throws.
use backend_assessment_chall.Prelude.{
  Bool, Option, false, if◌then◌else◌, ite, none, some, true, ◌&&◌,
}
use backend_assessment_chall.Prelude.Text.{Text, codes, text_discrete}

pub record HealthReport : Type 0 where
  pub status : Text
  pub db : Bool
  pub redis : Bool
  pub queue : Bool

-- `isHealthy`, and `checkQueue`: the answer does not matter.
abbrev pub answered : {A : Type 0} → Option A → Bool
answered none = false
answered (some a) = true

-- `checkRedis`
unfoldable pub check_redis : Option Text → Bool
check_redis none = false
check_redis (some pong) = ite (text_discrete pong (codes "PONG")) true false

unfoldable pub check : {A B : Type 0} → Option A → Option Text → Option B → HealthReport
check rows pong counts =
    let db : Bool = answered rows in
    let redis : Bool = check_redis pong in
    let queue : Bool = answered counts in
    record {
      status = if db && redis && queue then codes "ok" else codes "degraded";
      db = db;
      redis = redis;
      queue = queue;
    }
