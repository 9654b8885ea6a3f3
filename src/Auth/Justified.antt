-- ===== src/Auth/Justified.antt =====
-- What `resolveAuth` has checked before it gives a request an identity.
use openhermit.Prelude.{
  Text, text_eq_iff, truthy, length, utf8, length-utf8, utf8-nil, true, false, Bool-cases, Option,
  Option-cases, none, some, [], ◌∷◌, ◌≡◌, ◌↔◌, ◌⊎◌, inl, inr, refl, sym, ◌∙◌, ap, arith, ◌>>=◌,
}
use mathlib.Core.Option.{some-injective}
use openhermit.Auth.Registry.{ChannelRegistration, ChannelRegistry, resolve_by_key}
use openhermit.Auth.{
  AuthContext, JwtPayload, Request, tokens_match, present, is_bearer, token_of, verify_admin_token,
  bearer_token, verify_jwt, admin_context, user_context, channel_context, by_jwt_or_key,
  resolve_token, resolve_auth,
}

-- Two tokens match exactly if they have the same UTF-8 bytes.
pub tokens_match_iff : (a b : Text) → (tokens_match a b ≡ true) ↔ (utf8 a ≡ utf8 b)
unfolding tokens_match
tokens_match_iff a b = (
  λ h. ground (arith, text_eq_iff (utf8 a) (utf8 b)),
  λ h. ground (arith, text_eq_iff (utf8 a) (utf8 b), ap length h),
)

module _ (jwt_verify : Text → Option JwtPayload) (admin_token : Option Text)
    (channels : ChannelRegistry) where
  abbrev pub IsAdminToken : Text → Type 0
  IsAdminToken token = (a : Text) × (present admin_token ≡ some a) × (utf8 token ≡ utf8 a)

  -- The three ways to an identity, in the order in which they are tried.
  pub data IsJustified (token : Text) (ctx : AuthContext) : Type 0 where
    by_admin : IsAdminToken token → ctx ≡ admin_context → IsJustified token ctx
    by_jwt :
        ¬ IsAdminToken token
        → (name id : Text) → verify_jwt jwt_verify token ≡ some (name, id)
        → ctx ≡ user_context name id
        → IsJustified token ctx
    by_key :
        ¬ IsAdminToken token
        → verify_jwt jwt_verify token ≡ none
        → (r : ChannelRegistration) → resolve_by_key channels token ≡ some r
        → ctx ≡ channel_context r
        → IsJustified token ctx

  resolve_token-admin :
      (token : Text)
      → IsAdminToken token
      → resolve_token jwt_verify admin_token channels token ≡ some admin_context
  unfolding resolve_token
  resolve_token-admin token (a, there, same) = rw (there, (tokens_match_iff token a).1 same)

  other_admin :
      (token a : Text)
      → tokens_match token a ≡ false
      → present admin_token ≡ some a
      → ¬ IsAdminToken token
  other_admin token a other there (b, there', same) =
      let equal : b ≡ a = ground (arith, there, there') in
      cc (other, (tokens_match_iff token a).1 (same ∙ ap utf8 equal))

  -- Whether a token is the admin token can be decided.
  admin_or_not : (token : Text) → IsAdminToken token ⊎ (¬ IsAdminToken token)
  admin_or_not token = elim (Option-cases (present admin_token)) [
    | inl nothing ↦ inr (λ (a, there, same). cc (nothing, there))
    | inr (a, there) ↦ elim (Bool-cases (tokens_match token a)) [
      | inl same ↦ inl (a, there, (tokens_match_iff token a).0 same)
      | inr other ↦ inr (λ admin'. other_admin token a other there admin')
    ]
  ]

  resolve_token-other :
      (token : Text)
      → ¬ IsAdminToken token
      → resolve_token jwt_verify admin_token channels token
        ≡ by_jwt_or_key (verify_jwt jwt_verify token) (resolve_by_key channels token)
  unfolding resolve_token
  resolve_token-other token h = elim (Option-cases (present admin_token)) [
    | inl nothing ↦ ground (arith, nothing)
    | inr (a, there) ↦ elim (Bool-cases (tokens_match token a)) [
      | inl same ↦ absurd (h (a, there, (tokens_match_iff token a).0 same))
      | inr other ↦ ground (arith, there, other)
    ]
  ]

  resolve_token-IsJustified :
      (token : Text) (ctx : AuthContext)
      → IsJustified token ctx
      → resolve_token jwt_verify admin_token channels token ≡ some ctx
  resolve_token-IsJustified token ctx (by_admin a e) = resolve_token-admin token a ∙ ap some (sym e)
  resolve_token-IsJustified token ctx (by_jwt not_a name id v e) =
      resolve_token-other token not_a ∙ rw (v, e)
  resolve_token-IsJustified token ctx (by_key not_a v r found e) =
      resolve_token-other token not_a ∙ rw (v, found, e)

  other-IsJustified :
      (token : Text) (ctx : AuthContext) (jwt : Option (Text × Text))
      (key : Option ChannelRegistration)
      → ¬ IsAdminToken token
      → verify_jwt jwt_verify token ≡ jwt
      → resolve_by_key channels token ≡ key
      → by_jwt_or_key jwt key ≡ some ctx
      → IsJustified token ctx
  other-IsJustified token ctx (some (name, id)) key not_a v k h =
      by_jwt not_a name id v (sym (some-injective _ _ h))
  other-IsJustified token ctx none (some r) not_a v k h =
      by_key not_a v r k (sym (some-injective _ _ h))
  other-IsJustified token ctx none none not_a v k h = absurd (cc h)

  found :
      (ctx : AuthContext) (token? : Option Text)
      → (token? >>= resolve_token jwt_verify admin_token channels) ≡ some ctx
      → (token : Text) × (token? ≡ some token) × IsJustified token ctx
  found ctx none h = absurd (cc h)
  found ctx (some token) h = elim (admin_or_not token) [
    | inl a ↦ (token, refl, by_admin a (some-injective _ _ (sym h ∙ resolve_token-admin token a)))
    | inr not_a ↦ (
      token,
      refl,
      other-IsJustified token ctx _ _ not_a refl refl (sym (resolve_token-other token not_a) ∙ h),
    )
  ]

  -- A request gets an identity exactly if its bearer token justifies it: as the admin token, else
  -- as a verified JWT, else as a registered channel key.
  pub resolve_auth_iff :
      (request : Request) (ctx : AuthContext)
      → (resolve_auth jwt_verify admin_token channels request ≡ some ctx)
        ↔ ((token : Text) × (bearer_token request ≡ some token) × IsJustified token ctx)
  unfolding resolve_auth
  resolve_auth_iff request ctx = (
    λ h. found ctx (bearer_token request) h,
    λ (token, there, j). rw there (resolve_token-IsJustified token ctx j),
  )

present-truthy : (o : Option Text) (a : Text) → present o ≡ some a → truthy a ≡ true
present-truthy none a h = absurd (cc h)
present-truthy (some s) a h = ground (arith, h)

-- The empty string matches no other token.
tokens_match-truthy :
    (token a : Text) → truthy a ≡ true → tokens_match token a ≡ true → truthy token ≡ true
tokens_match-truthy (c ∷ token) a present' h = refl
tokens_match-truthy [] [] present' h = present'
tokens_match-truthy [] (c ∷ a) present' h =
    absurd (omega (arith, length-utf8 c a, ap length ((tokens_match_iff [] (c ∷ a)).0 h), utf8-nil))

-- An `Authorization` header that the admin routes accept gives the admin's identity.
pub resolve_auth-verify_admin_token :
    (jwt_verify : Text → Option JwtPayload) (admin_token : Option Text) (channels : ChannelRegistry)
    (request : Request)
    → verify_admin_token admin_token request.authorization ≡ true
    → resolve_auth jwt_verify admin_token channels request ≡ some admin_context
unfolding verify_admin_token resolve_auth
resolve_auth-verify_admin_token jwt_verify admin_token channels request h =
    elim (Option-cases (present admin_token)) [
      | inl nothing ↦ absurd (ground (arith, h, nothing))
      | inr (a, there) ↦
          let token = token_of request.authorization in
          let headed : is_bearer request.authorization ≡ true = ground (arith, h, there) in
          let same : tokens_match token a ≡ true = ground (arith, h, there, headed) in
          rw (headed, tokens_match-truthy token a (present-truthy admin_token a there) same)
            (resolve_token-admin jwt_verify admin_token channels token
              (a, there, (tokens_match_iff token a).0 same))
    ]
