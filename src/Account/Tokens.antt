-- ===== src/Account/Tokens.antt =====
-- pkg/auth/jwt.go and pkg/auth/helpers.go, and the cookie of pkg/middleware/auth.go. The signing and
-- the parsing of tokens are the library's, with the environment's secret and issuer.
pub mod Signed
use goshop_x.Base.{
  decimal_int, suc, append, negsuc, pos, wrap64, ℤ, ℕ, String, Bool, false, not, ◌&&◌, ◌||◌, Option,
  none, some, List, [], ◌∷◌, Result, ok, err, unexpected_signing_method, invalid_issuer,
  invalid_claims, user_missing, same, is_empty, has_suffix, decimal, if◌then◌else◌, ◌+◌, ◌*◌, ◌^◌,
}

-- `JWTCustomClaims` with the registered claims that are set.
pub record Claims : Type 0 where
  pub user_id : ℕ
  pub role : String
  pub issuer : String
  pub issued_at : ℕ
  pub expires_at : ℕ

-- What `jwt.ParseWithClaims` makes of a text: its claims, and whether the token is valid, where the key
-- function was asked with the text's signing method. `is_hmac` is the test in that function.
pub record Jwt : Type 0 where
  -- `jwt.NewNumericDate`.
  pub numeric_date : ℕ → ℕ
  pub sign_hs256 : String → Claims → Result String
  pub is_hmac : String → Bool
  pub parse_signed : String → ℕ → String → Result (Claims × Bool)

pub record Keys : Type 0 where
  pub secret_key : String
  pub issuer : String

abbrev pub day : ℕ
day = 24 * 3600 * 10 ^ 9

module _ (j : Jwt) (k : Keys) where
  -- The clock is read once for each of the two times.
  unfoldable pub generate_token : ℕ → String → ℕ → ℕ → Result String
  generate_token user_id role issued_at later = j.sign_hs256 k.secret_key (record {
    user_id = user_id;
    role = role;
    issuer = k.issuer;
    issued_at = j.numeric_date issued_at;
    expires_at = j.numeric_date (later + day);
  })

  unfoldable pub validate_token : String → ℕ → Result Claims
  validate_token token now =
      if not (j.is_hmac token)
      then err unexpected_signing_method
      else elim (j.parse_signed k.secret_key now token) [
        | err e ↦ err e
        | ok (c, valid) ↦
            if not valid
            then err invalid_claims
            else (if not (same c.issuer k.issuer) then err invalid_issuer else ok c)
      ]

  -- Who a request acts for: the claims of its cookie, if they are valid. A request without them goes on
  -- as nobody's.
  unfoldable pub authorize_jwt : Option String → ℕ → Option (ℕ × String)
  authorize_jwt none now = none
  authorize_jwt (some cookie) now =
      if is_empty cookie
      then none
      else elim (validate_token cookie now) [ err _ ↦ none | ok c ↦ some (c.user_id, c.role) ]

-- The number is converted to an `int`.
unfoldable pub get_user_id_int : Option (ℕ × String) → Result ℤ
get_user_id_int none = err user_missing
get_user_id_int (some (user, role)) = ok (wrap64 (pos user))

unfoldable pub get_user_id : Option (ℕ × String) → String
get_user_id context = elim (get_user_id_int context) [ err _ ↦ "" | ok user ↦ decimal_int user ]

unfoldable pub get_role : Option (ℕ × String) → String
get_role none = ""
get_role (some (user, role)) = role

unfoldable pub matches_role : String → List String → Bool
matches_role current [] = false
matches_role current (role ∷ roles) =
    same current role
    || (same current "admin" && has_suffix role "_admin")
    || matches_role current roles

unfoldable pub has_any_role : Option (ℕ × String) → List String → Bool
has_any_role context roles = matches_role (get_role context) roles
