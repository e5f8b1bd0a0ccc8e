-- ===== src/Api/Retries.antt =====
-- A request that is sent again.
use backend_assessment_chall.Prelude.{
  Option, Option-cases, ap, arith, false, inl, inr, none, refl, some, subst, sym, ℕ, ◌∙◌, ◌≡◌, ◌≢◌,
}
use backend_assessment_chall.Api.{answered_with, dispatch, is_over_limit, reply_to, serve}
use backend_assessment_chall.Api.Access.{Admitted, serve-Admitted, serve-cases}
use backend_assessment_chall.Api.Bodies.{transfer_dto}
use backend_assessment_chall.Api.Handlers.{answering, for_current_user, invalid_body}
use backend_assessment_chall.Api.Routes.{is_protected, success_status}
use backend_assessment_chall.Api.Types.{Answer, Edge, Request, transferred, wallet_transfer}
use backend_assessment_chall.Auth.Types.{Crypto, CurrentUserPayload, JwtConfig}
use backend_assessment_chall.FlashSale.Types.{Environment}
use backend_assessment_chall.Http.{correlate, gen_req_id}
use backend_assessment_chall.Prelude.Text.{Text}
use backend_assessment_chall.Redis.{redis_get, redis_set}
use backend_assessment_chall.Schema.{Wallet, wallet_by_user}
use backend_assessment_chall.Wallet.{
  transfer, transfer_body, transfer_cached, transfer_locked, transfer_uncached,
}
use backend_assessment_chall.Wallet.Queries.{create_entry, lock_wallet_by_id, update_wallet}
use backend_assessment_chall.Wallet.Transfer.Again.{transfer-again}
use backend_assessment_chall.Wallet.Types.{Runtime, TransferDto, TransferResult}
use backend_assessment_chall.World.{Result, World, err, ok, or_throw, ◌>>=◌}

module _ ⦃runtime : Runtime⦄ where
  transfer_locked-clock :
      (sender_ref receiver_ref : Wallet) (dto : TransferDto) (w : World)
      → (transfer_locked sender_ref receiver_ref dto w).1.clock ≡ w.clock
  unfolding transfer_locked lock_wallet_by_id update_wallet create_entry
  transfer_locked-clock sender_ref receiver_ref dto w = ground arith

  transfer_body-clock :
      (user_id : Text) (dto : TransferDto) (w : World)
      → (transfer_body user_id dto w).1.clock ≡ w.clock
  unfolding transfer_body
  transfer_body-clock user_id dto w = elim (Option-cases (wallet_by_user user_id w.db.wallets)) [
    | inl missing ↦ ground arith
    | inr (s, es) ↦ elim (Option-cases (wallet_by_user dto.to_user_id w.db.wallets)) [
      | inl missing ↦ ground arith
      | inr (t, et) ↦ ground (arith, transfer_locked-clock s t dto w)
    ]
  ]

  transfer-clock :
      (user_id : Text) (dto : TransferDto) (w : World) → (transfer user_id dto w).1.clock ≡ w.clock
  unfolding transfer transfer_cached transfer_uncached redis_get redis_set
  transfer-clock user_id dto w = grind (arith, transfer_body-clock)

  -- A transfer that has returned was not to oneself.
  transfer-other :
      (user_id : Text) (dto : TransferDto) (w w' : World) (r : TransferResult)
      → transfer user_id dto w ≡ (ok r, w')
      → dto.to_user_id ≢ user_id
  unfolding transfer
  transfer-other user_id dto w w' r done = ground arith

reply_to-answered :
    (edge : Edge) (request : Request) (w v : World) (x : Result Answer × World) (status : ℕ)
    (id : Text) (a : Answer)
    → reply_to edge request w x ≡ (answered_with status id a, v)
    → x ≡ (ok a, v)
unfolding reply_to
reply_to-answered edge request w v (ok b, u) status id a e = cc
reply_to-answered edge request w v (err b, u) status id a e = cc

abbrev answer_of : Result TransferResult × World → Result Answer × World
answer_of x = elim x.0 as (λ t. Result Answer × World) [
  | ok a ↦ (ok (transferred a), x.1)
  | err e ↦ (err e, x.1)
]

returned :
    (x : Result TransferResult × World) (r : TransferResult) (v : World)
    → answer_of x ≡ (ok (transferred r), v)
    → x ≡ (ok r, v)
returned (ok a, u) r v e = cc
returned (err a, u) r v e = cc

reply_to-status :
    (edge : Edge) (request : Request) (w v : World) (x : Result Answer × World) (status : ℕ)
    (id : Text) (a : Answer)
    → reply_to edge request w x ≡ (answered_with status id a, v)
    → success_status request.route ≡ status
unfolding reply_to
reply_to-status edge request w v (ok b, u) status id a e = cc
reply_to-status edge request w v (err b, u) status id a e = absurd cc

module _ ⦃runtime : Runtime⦄ where
  transfer_made :
      (o : Option TransferDto) (user : CurrentUserPayload) (w v : World) (r : TransferResult)
      → (or_throw o invalid_body >>= λ dto.
            for_current_user (some user) (λ id. answering transferred (transfer id dto)))
          w
        ≡ (ok (transferred r), v)
      → (dto : TransferDto) × (o ≡ some dto) × (transfer user.user_id dto w ≡ (ok r, v))
  unfolding for_current_user
  transfer_made none user w v r e = absurd cc
  transfer_made (some dto) user w v r e = (dto, refl, returned (transfer user.user_id dto w) r v e)

  transfer_answers :
      (o : Option TransferDto) (user : CurrentUserPayload) (w v : World) (r : TransferResult)
      (dto : TransferDto)
      → o ≡ some dto
      → transfer user.user_id dto w ≡ (ok r, v)
      → (or_throw o invalid_body >>= λ dto.
            for_current_user (some user) (λ id. answering transferred (transfer id dto)))
          w
        ≡ (ok (transferred r), v)
  unfolding for_current_user
  transfer_answers o user w v r dto passed done = rw passed (ap answer_of done)

module _ ⦃runtime : Runtime⦄ (crypto : Crypto) (config : JwtConfig) (env : Environment)
    (edge : Edge) (request : Request) where
  handler_again :
      (user : CurrentUserPayload) (w v : World) (r : TransferResult)
      → dispatch crypto config env edge wallet_transfer request (some user) w
        ≡ (ok (transferred r), v)
      → (dispatch crypto config env edge wallet_transfer request (some user) v
          ≡ (ok (transferred r), v))
        × (v.clock ≡ w.clock)
  unfolding dispatch
  handler_again user w v r done =
      let (dto, passed, made) = transfer_made (transfer_dto edge request.body) user w v r done in
      (
        transfer_answers (transfer_dto edge request.body) user v v r dto passed (
            transfer-again user.user_id dto dto w v r made refl
              (transfer-other user.user_id dto w v r made)),
        ground (arith, made, transfer-clock user.user_id dto w),
      )

  served_again :
      (u : Option CurrentUserPayload) (w v : World) (r : TransferResult)
      → request.route ≡ wallet_transfer
      → dispatch crypto config env edge request.route request u w ≡ (ok (transferred r), v)
      → Admitted edge request w.clock u
      → is_over_limit edge request v ≡ false
      → serve crypto config env edge request v ≡ reply_to edge request v (ok (transferred r), v)
  unfolding is_protected
  served_again u w v r on_transfer made admitted under =
      let (claims, user, is_user, token, sub, role, valid, allowed) = admitted in
      let (again, same_clock) = handler_again user w v r (
        sym (
          ap (λ x. dispatch crypto config env edge x request u w) on_transfer
          ∙ ap (λ x. dispatch crypto config env edge wallet_transfer request x w) is_user)
        ∙ made) in
      serve-Admitted crypto config env edge request v u
        (subst (λ c. Admitted edge request c u) (sym same_clock) admitted) (rw on_transfer refl)
        under
      ∙ ap (reply_to edge request v) (
          ap (λ x. dispatch crypto config env edge x request u v) on_transfer
          ∙ (ap (λ x. dispatch crypto config env edge wallet_transfer request x v) is_user ∙ again))

  -- A transfer that is sent again. When POST /wallets/transfer has been answered with a transfer, the
  -- same request, in the state that it left, is answered with the same transfer and the same status,
  -- and changes nothing. It is supposed that the second request is not over the limit.
  pub serve-again :
      (w v : World) (status : ℕ) (id : Text) (r : TransferResult)
      → request.route ≡ wallet_transfer
      → serve crypto config env edge request w ≡ (answered_with status id (transferred r), v)
      → is_over_limit edge request v ≡ false
      → (id' : Text) × (serve crypto config env edge request v
          ≡ (answered_with status id' (transferred r), v))
  unfolding is_protected reply_to
  serve-again w v status id r on_transfer replied under =
      elim (serve-cases crypto config env edge request w) [
        | inl (e, refused_so, refusal) ↦ absurd (cc (refused_so, replied))
        | inr (u, handled, admitted) ↦
            let x = dispatch crypto config env edge request.route request u w in
            let eq : reply_to edge request w x ≡ (answered_with status id (transferred r), v) =
              sym handled ∙ replied in
            (
              (correlate (some (gen_req_id request.correlation (edge.pino_id v)))
                  request.correlation (edge.fresh_id v)).response_header,
              served_again u w v r on_transfer
                    (reply_to-answered edge request w v x status id (transferred r) eq)
                    (admitted (rw on_transfer refl)) under
                  ∙ rw (reply_to-status edge request w v x status id (transferred r) eq) refl,
            )
      ]
