-- ===== src/Api/Access.antt =====
-- Who gets to the handlers of the protected routes.
use backend_assessment_chall.Prelude.{
  Bool-cases, List, Option, Option-cases, [], ap, arith, false, inl, inr, none, refl, some, true, ℕ,
  ◌∷◌, ◌≡◌, ◌⊎◌,
}
use backend_assessment_chall.Api.{
  admit, authorise, dispatch, failed_with, is_over_limit, of_result, reply_to, serve, serve_action,
  too_many, unauthorized_request,
}
use backend_assessment_chall.Api.Routes.{is_protected, required_roles, skips_throttle}
use backend_assessment_chall.Api.Types.{Answer, Edge, Request, Route}
use backend_assessment_chall.Auth.Types.{Claims, Crypto, CurrentUserPayload, JwtConfig}
use backend_assessment_chall.FlashSale.Types.{Environment}
use backend_assessment_chall.Guards.{
  can_activate, includes, invalid_payload, no_permission, user_of_claims, validate,
}
use backend_assessment_chall.Http.{
  UnifiedErrorResponse, catch_exception, correlate, gen_req_id, status_of_exception,
}
use backend_assessment_chall.Prelude.Text.{Text}
use backend_assessment_chall.Schema.{Role}
use backend_assessment_chall.Wallet.Types.{Runtime}
use backend_assessment_chall.World.{Exception, Result, World, err, ok}

-- 401 where a token is asked for, 403 where a role is, or 429 where requests are counted.
abbrev pub IsRefused : Route → ℕ → Type 0
IsRefused route status =
    ((status ≡ 401) × (is_protected route ≡ true))
    ⊎ ((status ≡ 403) × ((roles : List Role) × (required_roles route ≡ some roles)))
    ⊎ ((status ≡ 429) × (skips_throttle route ≡ false))

abbrev pub IsRefusal : Route → Exception → Type 0
IsRefusal route e = IsRefused route (status_of_exception e)

-- A user whom the guards let pass has a valid token and a role that the route asks for.
abbrev pub Admitted : Edge → Request → ℕ → Option CurrentUserPayload → Type 0
Admitted edge request now u =
    (claims : Claims) × (user : CurrentUserPayload) × (u ≡ some user)
    × (edge.authenticate now request.authorization ≡ some claims)
    × (claims.sub ≡ some user.user_id)
    × (claims.role ≡ some user.role)
    × (validate claims ≡ ok user)
    × (can_activate (required_roles request.route) (some user) ≡ ok true)

user_of_claims-cases :
    (sub : Option Text) (role : Option Role)
    → (user_of_claims sub role ≡ err invalid_payload)
      ⊎ ((user : CurrentUserPayload) × (user_of_claims sub role ≡ ok user)
          × (sub ≡ some user.user_id)
          × (role ≡ some user.role))
unfolding user_of_claims
user_of_claims-cases none role = inl refl
user_of_claims-cases (some []) role = inl refl
user_of_claims-cases (some (c ∷ cs)) none = inl refl
user_of_claims-cases (some (c ∷ cs)) (some role) =
    inr (record { user_id = c ∷ cs; role = role }, refl, refl, refl)

can_activate-cases :
    (roles : Option (List Role)) (user : CurrentUserPayload)
    → (can_activate roles (some user) ≡ ok true)
      ⊎ ((can_activate roles (some user) ≡ err no_permission)
          × ((asked : List Role) × (roles ≡ some asked)))
unfolding can_activate
can_activate-cases none user = inl refl
can_activate-cases (some []) user = inl refl
can_activate-cases (some (r ∷ rs)) user = elim (Bool-cases (includes (r ∷ rs) user.role)) [
  | inl in_list ↦ inl (ground arith)
  | inr not_in ↦ inr (ground arith, (r ∷ rs, refl))
]

module _ (edge : Edge) (request : Request) (w : World) where
  over_limit-throttled : is_over_limit edge request w ≡ true → skips_throttle request.route ≡ false
  unfolding is_over_limit
  over_limit-throttled h = ground arith

  -- What `admit` does: it throws and changes nothing, or returns the user and changes nothing.
  admit-cases :
      is_protected request.route ≡ true
      → ((e : Exception) × (admit edge request w ≡ (err e, w)) × IsRefusal request.route e)
        ⊎ ((u : Option CurrentUserPayload) × (admit edge request w ≡ (ok u, w))
            × Admitted edge request w.clock u)
  unfolding admit of_result validate
  admit-cases guarded_route =
      elim (Option-cases (edge.authenticate w.clock request.authorization)) [
        | inl bad ↦ inl (unauthorized_request, ground arith, inl (refl, guarded_route))
        | inr (claims, good) ↦ elim (user_of_claims-cases claims.sub claims.role) [
          | inl bad ↦ inl (invalid_payload, ground arith, inl (refl, guarded_route))
          | inr (user, valid, sub, role) ↦
              elim (can_activate-cases (required_roles request.route) user) [
                | inl allowed ↦
                    inr (
                      some user,
                      ground arith,
                      (claims, user, refl, good, sub, role, valid, allowed),
                    )
                | inr (other, roles) ↦ inl (no_permission, ground arith, inr (inl (refl, roles)))
              ]
        ]
      ]

  authorise-cases :
      ((e : Exception) × (authorise edge request w ≡ (err e, w)) × IsRefusal request.route e)
      ⊎ ((u : Option CurrentUserPayload) × (authorise edge request w ≡ (ok u, w))
          × (is_protected request.route ≡ true → Admitted edge request w.clock u))
  unfolding authorise
  authorise-cases = elim (Bool-cases (is_over_limit edge request w)) [
    | inl over ↦ inl (too_many, ground arith, inr (inr (refl, over_limit-throttled over)))
    | inr under ↦ elim (Bool-cases (is_protected request.route)) [
      | inr open_route ↦ inr (none, ground arith, λ h. absurd (cc))
      | inl guarded_route ↦ elim (admit-cases guarded_route) [
        | inl (e, threw, refusal) ↦ inl (e, ground arith, refusal)
        | inr (u, returned, admitted) ↦ inr (u, ground arith, λ h. admitted)
      ]
    ]
  ]

  -- Whoever may pass and is not over the limit does.
  pub authorise-Admitted :
      (u : Option CurrentUserPayload)
      → Admitted edge request w.clock u
      → is_protected request.route ≡ true
      → is_over_limit edge request w ≡ false
      → authorise edge request w ≡ (ok u, w)
  unfolding authorise admit of_result
  authorise-Admitted u (claims, user, is_user, good, sub, role, valid, allowed) guarded_route
        under =
      ground arith

module _ ⦃runtime : Runtime⦄ (crypto : Crypto) (config : JwtConfig) (env : Environment)
    (edge : Edge) (request : Request) (w : World) where
  -- The body of the refusal.
  abbrev pub refusal_body : Exception → UnifiedErrorResponse
  refusal_body e =
      (catch_exception edge.log_message
        (some
          (correlate (some (gen_req_id request.correlation (edge.pino_id w))) request.correlation
            (edge.fresh_id w)).correlation_id)
        w.clock none (edge.thrown e)).0

  pub refusal_body-status : (e : Exception) → (refusal_body e).status_code ≡ status_of_exception e
  unfolding catch_exception
  refusal_body-status e = edge.thrown-status e

  -- What follows the guards.
  abbrev after_guards : Result (Option CurrentUserPayload) × World → Result Answer × World
  after_guards x = elim x.0 [
    | ok u ↦ dispatch crypto config env edge request.route request u x.1
    | err e ↦ (err e, x.1)
  ]

  pub serve-cases :
      ((e : Exception) × (serve crypto config env edge request w
          ≡ (failed_with (refusal_body e), w))
        × IsRefusal request.route e)
      ⊎ ((u : Option CurrentUserPayload) × (serve crypto config env edge request w
            ≡ reply_to edge request w (dispatch crypto config env edge request.route request u w))
          × (is_protected request.route ≡ true → Admitted edge request w.clock u))
  unfolding serve serve_action reply_to
  serve-cases = elim (authorise-cases edge request w) [
    | inl (e, threw, refusal) ↦
        inl (e, ap (λ x. reply_to edge request w (after_guards x)) threw, refusal)
    | inr (u, returned, admitted) ↦
        inr (u, ap (λ x. reply_to edge request w (after_guards x)) returned, admitted)
  ]

  pub serve-Admitted :
      (u : Option CurrentUserPayload)
      → Admitted edge request w.clock u
      → is_protected request.route ≡ true
      → is_over_limit edge request w ≡ false
      → serve crypto config env edge request w
        ≡ reply_to edge request w (dispatch crypto config env edge request.route request u w)
  unfolding serve serve_action
  serve-Admitted u admitted guarded_route under =
      ap (λ x. reply_to edge request w (after_guards x))
        (authorise-Admitted edge request w u admitted guarded_route under)
