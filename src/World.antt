-- ===== src/World.antt =====
-- What a request handler runs in: the data base, Redis, the job queue, the clock, the stream of
-- random UUIDs, and the row locks taken. A handler is an action over this state that returns or
-- throws; `$transaction` undoes the writes to the data base when its body throws.
--
-- Redis keeps a text until its time to live has passed. BullMQ's queue is the list of added jobs.
pub mod Ensures
use backend_assessment_chall.Prelude.{
  Bool, List, Option, if◌then◌else◌, ltb, none, some, ℕ, ◌+◌, ◌^◌,
}
use backend_assessment_chall.Prelude.Int.{neg_part, pos_part, ℤ}
use backend_assessment_chall.Prelude.Text.{Text}
use backend_assessment_chall.Schema.{Database}

-- Name and data of an order-confirmation job (modules/notifications/notifications.constants.ts).
pub record Job : Type 0 where
  pub order_id : Text
  pub user_id : Text

-- A text with the time at which it goes.
pub record Stored : Type 0 where
  pub key : Text
  pub value : Text
  pub expires_at : ℕ

pub record World : Type 0 where
  pub db : Database
  pub redis : List Stored
  pub queue : List Job
  pub clock : ℕ
  pub uuids : ℕ → Text
  pub drawn : ℕ
  pub locks : List Text

-- The HTTP exceptions of @nestjs/common that the code throws.
pub data HttpError : Type 0 where
  bad_request unauthorized forbidden not_found conflict too_many_requests : HttpError

-- Prisma's known request errors: a unique constraint, a foreign key, a raw query that failed, a
-- value out of the column's range, a row that is not there.
pub data PrismaCode : Type 0 where
  p2002 p2003 p2010 p2020 p2025 : PrismaCode

pub data Exception : Type 0 where
  http_exception : HttpError → Text → Exception
  known_request : PrismaCode → Exception
  plain_error : Text → Exception

pub data Result (A : Type 0) : Type 0 where
  ok : A → Result A
  err : Exception → Result A

abbrev pub Action : Type 0 → Type 0
Action A = World → Result A × World

module _ {A : Type 0} where
  abbrev pub pure : A → Action A
  pure a w = (ok a, w)

  abbrev pub throw : Exception → Action A
  throw e w = (err e, w)

  abbrev pub gets : (World → A) → Action A
  gets f w = (ok (f w), w)

  abbrev pub or_throw : Option A → Exception → Action A
  or_throw none e = throw e
  or_throw (some a) e = pure a

  -- `prisma.$transaction(body)`
  abbrev pub transaction : Action A → Action A
  transaction body w =
      let (r, w') = body w in
      elim r [ ok a ↦ (ok a, w') | err e ↦ (err e, record w' { db = w.db }) ]

  -- `try { body } catch (e) { handler }`
  abbrev pub try_catch : Action A → (Exception → Action A) → Action A
  try_catch body handler w =
      let (r, w') = body w in elim r [ ok a ↦ (ok a, w') | err e ↦ handler e w' ]

infixl 5 ◌>>=◌ ◌>>◌
abbrev pub ◌>>=◌ : {A B : Type 0} → Action A → (A → Action B) → Action B
◌>>=◌ m f w = let (r, w') = m w in elim r [ ok a ↦ f a w' | err e ↦ (err e, w') ]

abbrev pub ◌>>◌ : {A B : Type 0} → Action A → Action B → Action B
m >> k = m >>= λ _. k

abbrev pub throw_if : Bool → Exception → Action (Unit {0})
throw_if c e w = (if c then err e else ok tt, w)

abbrev pub modify_db : (Database → Database) → Action (Unit {0})
modify_db f w = (ok tt, record w { db = f w.db })

-- `randomUUID()`
unfoldable pub random_uuid : Action Text
random_uuid w = (ok (w.uuids w.drawn), record w { drawn = w.drawn + 1 })

-- DECIMAL(18,2) and INTEGER columns take numbers of at most 18 digits, and below 2^31.
unfoldable pub fits_decimal : ℤ → Bool
fits_decimal x = ltb (pos_part x + neg_part x) (10 ^ 18)

unfoldable pub fits_integer : ℕ → Bool
fits_integer n = ltb n (2 ^ 31)
