-- ===== src/Tests/Edge.antt =====
-- A stand-in for class-validator, passport and the throttler: a bearer's header is the user's id,
-- and every text keeps the rules.
use backend_assessment_chall.Prelude.{
  Option, [], false, leb, length, none, refl, some, true, ℕ, ◌≡◌,
}
use backend_assessment_chall.Api.Types.{Edge}
use backend_assessment_chall.Auth.Types.{Claims}
use backend_assessment_chall.Http.{Response, Thrown, native_error, status_of, status_of_exception}
use backend_assessment_chall.Prelude.Int.{pos}
use backend_assessment_chall.Prelude.Text.{Text, codes}
use backend_assessment_chall.Schema.{Role}
use backend_assessment_chall.World.{Exception, http_exception, known_request, plain_error}

abbrev toy_thrown : Exception → Thrown
toy_thrown (http_exception kind m) =
    Thrown.http (status_of_exception (http_exception kind m)) (codes "HttpException") m
      (Response.plain m)
toy_thrown (known_request code) = native_error (codes "PrismaClientKnownRequestError") [] []
toy_thrown (plain_error m) = native_error (codes "Error") m []

pub toy_thrown-status : (e : Exception) → status_of (toy_thrown e) ≡ status_of_exception e
toy_thrown-status (http_exception kind m) = refl
toy_thrown-status (known_request code) = refl
toy_thrown-status (plain_error m) = refl

abbrev customer_claims : Text → Claims
customer_claims id = record { sub = some id; role = some Role.customer }

-- The header is the user's id.
abbrev toy_authenticate : ℕ → Option Text → Option Claims
toy_authenticate now none = none
toy_authenticate now (some id) = some (customer_claims id)

abbrev pub toy_edge : Edge
toy_edge = record {
  is_uuid = λ t. true;
  is_email = λ t. true;
  is_date_string = λ t. true;
  has_min_length = λ n t. leb n (length t);
  parse_date = λ t. some (length t);
  parse_int = λ t. some (pos (length t));
  authenticate = toy_authenticate;
  throttle_ttl = none;
  throttle_limit = none;
  is_throttled = λ o r w. false;
  probe_rows = λ w. some (codes "1");
  probe_ping = λ w. some (codes "PONG");
  probe_counts = λ w. some (codes "0");
  pino_id = λ w. codes "p";
  fresh_id = λ w. codes "f";
  log_message = λ status m. codes "m";
  thrown = toy_thrown;
  thrown-status = toy_thrown-status;
}
