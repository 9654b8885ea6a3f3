-- ===== src/Auth.antt =====
-- apps/gateway/src/auth.ts: tokens and the resolution of a request's identity. The verification of a
-- JWT's signature by the `jose` library is a parameter, which gives the payload of a valid token.
pub mod Registry
pub mod Justified
use openhermit.Prelude.{
  ℕ, Text, codes, text_eq, truthy, starts_with, drop, length, ◌==◌, utf8, Bool, true, false, not,
  ◌&&◌, Option, none, some, or_else, List, [], ◌∷◌, if◌then◌else◌, ◌>>=◌,
}
use openhermit.Auth.Registry.{ChannelRegistration, ChannelRegistry, resolve_by_key, get_namespace}

pub data AuthMode : Type 0 where
  user channel admin : AuthMode

pub record AuthContext : Type 0 where
  pub mode : AuthMode
  pub channel : Text
  pub channel_user_id : Text
  pub agent_id : Option Text
  pub channel_namespace : Option Text

-- The claims that `verifyJwt` reads, each `none` where it is missing.
pub record JwtPayload : Type 0 where
  pub sub : Option Text
  pub channel : Option Text
  pub channel_user_id : Option Text

-- The parts of a request that `resolveAuth` reads.
pub record Request : Type 0 where
  pub authorization : Option Text
  pub query_token : Option Text

-- `timingSafeEqual` of two buffers of the same length
abbrev timing_safe_equal : List ℕ → List ℕ → Bool
timing_safe_equal a b = text_eq a b

unfoldable pub tokens_match : Text → Text → Bool
tokens_match a b =
    if not (length (utf8 a) == length (utf8 b)) then false else timing_safe_equal (utf8 a) (utf8 b)

abbrev pub bearer : Text
bearer = codes "Bearer "

abbrev is_bearer : Option Text → Bool
is_bearer none = false
is_bearer (some h) = starts_with h bearer

abbrev token_of : Option Text → Text
token_of none = []
token_of (some h) = drop 7 h

-- `x` where it is there and not the empty string
abbrev pub present : Option Text → Option Text
present none = none
present (some s) = if truthy s then some s else none

unfoldable pub verify_admin_token : Option Text → Option Text → Bool
verify_admin_token admin_token authorization = elim (present admin_token) [
  | none ↦ false
  | some a ↦
      if not (is_bearer authorization) then false else tokens_match (token_of authorization) a
]

-- `bearerToken`, where it is there and not the empty string
unfoldable pub bearer_token : Request → Option Text
bearer_token r =
    if is_bearer r.authorization
    then present (some (token_of r.authorization))
    else present r.query_token

abbrev pub admin_context : AuthContext
admin_context = record {
  mode = admin;
  channel = codes "admin";
  channel_user_id = codes "admin";
  agent_id = none;
  channel_namespace = none;
}

abbrev pub user_context : Text → Text → AuthContext
user_context channel_name user_id = record {
  mode = user;
  channel = channel_name;
  channel_user_id = user_id;
  agent_id = none;
  channel_namespace = none;
}

abbrev pub channel_context : ChannelRegistration → AuthContext
channel_context r = record {
  mode = channel;
  channel = get_namespace r;
  channel_user_id = [];
  agent_id = some r.agent_id;
  channel_namespace = some (get_namespace r);
}

abbrev matches_admin : Option Text → Text → Bool
matches_admin none token = false
matches_admin (some a) token = tokens_match token a

-- The payload of a valid JWT, else the registration of a channel key.
abbrev by_jwt_or_key : Option (Text × Text) → Option ChannelRegistration → Option AuthContext
by_jwt_or_key (some (channel_name, user_id)) key = some (user_context channel_name user_id)
by_jwt_or_key none (some r) = some (channel_context r)
by_jwt_or_key none none = none

module _ (jwt_verify : Text → Option JwtPayload) where
  -- `verifyJwt`, with the channel and the channel's user of the payload
  unfoldable pub verify_jwt : Text → Option (Text × Text)
  verify_jwt token = do
    payload ← jwt_verify token
    sub ← present payload.sub
    channel_name ← present payload.channel
    user_id ← present payload.channel_user_id
    some (channel_name, user_id)

  -- The part behind `if (bearerToken)`.
  unfoldable pub resolve_token : Option Text → ChannelRegistry → Text → Option AuthContext
  resolve_token admin_token channels token =
      if matches_admin (present admin_token) token
      then some admin_context
      else by_jwt_or_key (verify_jwt token) (resolve_by_key channels token)

  unfoldable pub resolve_auth : Option Text → ChannelRegistry → Request → Option AuthContext
  unfolding resolve_token bearer_token
  resolve_auth admin_token channels request = do
    token ← bearer_token request
    resolve_token admin_token channels token
