-- ===== src/Guards/Board.antt =====
-- The middleware of the board against the guards that it stands for.
use backend_assessment_chall.Prelude.{
  Bool, Bool-cases, Option, Option-cases, [], ap, arith, drop, inl, inr, length, none, refl, some,
  true, ℕ, ◌++◌, ◌∷◌, ◌≡◌,
}
use backend_assessment_chall.Auth.Types.{Claims, Crypto, JwtConfig}
use backend_assessment_chall.Guards.{
  BoardReply, bearer, board_token, board_use, board_verified, can_activate, includes, is_admin,
  next_handler, refused, user_of_claims, validate,
}
use backend_assessment_chall.Prelude.Text.{Text}
use backend_assessment_chall.Redis.{has_prefix}
use backend_assessment_chall.Schema.{Role}
use backend_assessment_chall.World.{HttpError, Result, err, http_exception, ok}

has_prefix-split : (p t : Text) → has_prefix p t ≡ true → t ≡ p ++ drop (length p) t
unfolding has_prefix
has_prefix-split [] t h = refl
has_prefix-split (c ∷ p) [] h = ground arith
has_prefix-split (c ∷ p) (d ∷ t) h = ground (arith, has_prefix-split p t)

-- The status that the guards answer with: `validate`, then the guard with `@Roles(ADMIN)`.
abbrev pub guarded : Claims → Result Bool
guarded claims = elim (validate claims) [
  | ok user ↦ can_activate (some (Role.admin ∷ [])) (some user)
  | err e ↦ err e
]

abbrev pub as_board : Result Bool → BoardReply
as_board (ok passed) = next_handler
as_board (err (http_exception HttpError.unauthorized m)) = refused 401
as_board (err (http_exception HttpError.forbidden m)) = refused 403
as_board (err _) = refused 500

guarded-as_board :
    (claims : Claims) (c : ℕ) (cs : Text) (role : Role)
    → claims.sub ≡ some (c ∷ cs)
    → claims.role ≡ some role
    → as_board (guarded claims) ≡ board_verified (some claims)
unfolding validate user_of_claims can_activate includes
guarded-as_board claims c cs Role.customer s r = ground arith
guarded-as_board claims c cs Role.admin s r = ground arith

is_admin-role : (role : Option Role) → is_admin role ≡ true → role ≡ some Role.admin
is_admin-role none h = ground arith
is_admin-role (some Role.customer) h = ground arith
is_admin-role (some Role.admin) h = refl

module _ (crypto : Crypto) (config : JwtConfig) (now : ℕ) where
  -- For a Bearer token that is not empty, verifies, and holds a role and a subject that is not
  -- empty, the middleware of the board does what `JwtStrategy.validate` and then `RolesGuard`
  -- with `@Roles(ADMIN)` do: it lets pass, or answers 401 or 403.
  pub board_use-guards :
      (d : ℕ) (ds : Text) (claims : Claims) (c : ℕ) (cs : Text) (role : Role)
      → crypto.verify_access config.access_secret now (d ∷ ds) ≡ some claims
      → claims.sub ≡ some (c ∷ cs)
      → claims.role ≡ some role
      → board_use crypto config now (some (bearer ++ (d ∷ ds))) ≡ as_board (guarded claims)
  unfolding board_use has_prefix
  board_use-guards d ds claims c cs role verified s r =
      rw (guarded-as_board claims c cs role s r) (rw verified refl)

  board_token-admin :
      (token : Text)
      → board_token crypto config now (some token) ≡ next_handler
      → (claims : Claims) × (crypto.verify_access config.access_secret now token ≡ some claims)
        × (claims.role ≡ some Role.admin)
  board_token-admin [] passed = ground arith
  board_token-admin (c ∷ cs) passed =
      elim (Option-cases (crypto.verify_access config.access_secret now (c ∷ cs))) [
        | inl none_there ↦ ground arith
        | inr (claims, verified) ↦ (claims, verified, is_admin-role claims.role (ground arith))
      ]

  -- Whoever gets to the board has sent a Bearer token that verifies and has the role ADMIN.
  pub board_use-admin :
      (header : Option Text)
      → board_use crypto config now header ≡ next_handler
      → (token : Text) × (claims : Claims) × (header ≡ some (bearer ++ token))
        × (crypto.verify_access config.access_secret now token ≡ some claims)
        × (claims.role ≡ some Role.admin)
  unfolding board_use
  board_use-admin none passed = ground arith
  board_use-admin (some header) passed = elim (Bool-cases (has_prefix bearer header)) [
    | inr other ↦ ground arith
    | inl same ↦
        let (claims, verified, role) =
          board_token-admin (drop (length bearer) header) (ground arith) in
        (
          drop (length bearer) header,
          claims,
          ap some (has_prefix-split bearer header same),
          verified,
          role,
        )
  ]
