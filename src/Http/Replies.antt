-- ===== src/Http/Replies.antt =====
-- What a client is told, and what is logged, about an exception.
use backend_assessment_chall.Prelude.{
  Option, [], ap, arith, if◌then◌else◌, ltb, none, refl, some, ℕ, ◌∷◌, ◌≡◌, ◌≢◌,
}
use backend_assessment_chall.Http.{
  HeaderValue, LogLevel, Message, Thrown, catch_exception, correlate, first_value, or_text, single,
  stack_of,
}
use backend_assessment_chall.Prelude.Text.{Text}

or_text-nonempty : (a : Option Text) (b : Text) → b ≢ [] → or_text a b ≢ []
or_text-nonempty none b h = h
or_text-nonempty (some []) b h = h
or_text-nonempty (some (c ∷ cs)) b h = λ e. ground arith

or_text-kept : (id other : Text) → id ≢ [] → or_text (some id) other ≡ id
or_text-kept [] other h = elim (h refl) [ ]
or_text-kept (c ∷ cs) other h = refl

-- Whatever the request brings, the id of an error's body is the id in the response's header, the
-- id in the log, and the id that the request has from then on, and it is not empty, if the UUID
-- at hand is not.
pub catch_exception-correlated :
    (log_message : ℕ → Message → Text) (pino_id : Option Text) (incoming : HeaderValue)
    (uuid : Text) (now : ℕ) (stack : Option Text) (thrown : Thrown)
    → uuid ≢ []
    → let exchange = correlate pino_id incoming uuid in
      let (body, line) =
        catch_exception log_message (some exchange.correlation_id) now stack thrown in
      (body.correlation_id ≡ exchange.response_header)
      × (line.correlation_id ≡ exchange.response_header)
      × (exchange.request_header ≡ single exchange.response_header)
      × (exchange.response_header ≢ [])
unfolding correlate catch_exception
catch_exception-correlated log_message pino_id incoming uuid now stack thrown h =
    (refl, refl, refl, or_text-nonempty pino_id _ (or_text-nonempty (first_value incoming) uuid h))

-- The id that the middleware settles on is kept by a second run that is given the request's header,
-- whatever UUID that run has at hand.
pub correlate-again :
    (pino_id : Option Text) (incoming : HeaderValue) (uuid other : Text)
    → uuid ≢ []
    → let once = correlate pino_id incoming uuid in correlate none once.request_header other ≡ once
unfolding correlate
correlate-again pino_id incoming uuid other h =
    ap
      (λ (id : Text). record {
        correlation_id = id;
        request_header = single id;
        response_header = id;
      })
      (or_text-kept _ other
        (or_text-nonempty pino_id _ (or_text-nonempty (first_value incoming) uuid h)))

-- The status alone decides how an exception is logged: below 500 as a warning with no stack, and
-- from 500 on as an error with the stack, if it has one. The status that is logged is the one of
-- the reply.
pub catch_exception-level :
    (log_message : ℕ → Message → Text) (id : Option Text) (now : ℕ) (stack : Option Text)
    (thrown : Thrown)
    → let (body, line) = catch_exception log_message id now stack thrown in
      (line.status_code ≡ body.status_code)
      × (line.level ≡ (if ltb body.status_code 500 then LogLevel.warn else LogLevel.error))
      × (line.stack ≡ (if ltb body.status_code 500 then none else stack_of stack thrown))
unfolding catch_exception
catch_exception-level log_message id now stack (Thrown.http status name message response) =
    ground arith
catch_exception-level log_message id now stack (Thrown.native_error name message trace) =
    ground arith
catch_exception-level log_message id now stack Thrown.value = ground arith
