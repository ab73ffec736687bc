-- ===== src/Auth/Jwt.antt =====
-- src/auth/jwt.rs: the validation of a token.
use veyron.Prelude.{
  [], text_eq, nat_eq, if◌then◌else◌, List, Option, Bool, Text, ℕ, is_empty, is_some, bytes, ◌&&◌,
  unwrap_or,
}
use veyron.Utils.Errors.{Result, ok, err, auth}

pub record PluginClaims : Type 0 where
  pub sub : Text
  pub permissions : List Text
  pub ipc_targets : List Text
  pub exp : ℕ
  pub iat : ℕ
  pub aud : Option Text
  pub jti : Option Text

-- The token library's check of a token under the kernel's key, `err` with its error's text.
abbrev pub Decoder : Type 0
Decoder = Text → Result PluginClaims

-- A token for an audience must carry a nonce.
abbrev pub lacks_nonce : PluginClaims → Bool
lacks_nonce claims = is_some claims.aud && is_empty (unwrap_or claims.jti [])

pub validate : Decoder → Text → Result PluginClaims
unfolding is_empty
validate decode token =
    if is_empty token then err (auth (bytes "missing JWT token")) else elim (decode token) [
      | err e ↦ err e
      | ok claims ↦
          if lacks_nonce claims
          then err (auth (bytes "token carries aud but no jti nonce"))
          else ok claims
    ]
