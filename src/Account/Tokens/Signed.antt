-- ===== src/Account/Tokens/Signed.antt =====
-- A token that was signed, and the roles that it stands for.
use goshop_x.Base.{
  ◌*◌, sym, ◌^◌, subst, ◌/◌, eq_iff, arith, some, ◌+◌, false, ◌<◌, is_empty, true, ℕ, ok, ◌≡◌,
  String,
}
use goshop_x.Account.Tokens.{day, Keys, validate_token, Claims, authorize_jwt, generate_token, Jwt}

-- A nanosecond's whole second, in nanoseconds.
abbrev pub whole_second : ℕ → ℕ
whole_second t = t / 10 ^ 9 * 10 ^ 9

-- What the library does with a text that was signed with the same secret, before the claims expire.
-- Times are written in whole seconds, so that claims come back that stand at whole seconds.
pub record TokenLaws (j : Jwt) : Type 0 where
  pub whole_seconds : (t : ℕ) → j.numeric_date t ≡ whole_second t
  pub signed_method :
      (k : String) (c : Claims) (text : String) → j.sign_hs256 k c ≡ ok text → j.is_hmac text ≡ true
  pub signed_claims :
      (k : String) (c : Claims) (text : String) (now : ℕ)
      → j.sign_hs256 k c ≡ ok text
      → whole_second c.issued_at ≡ c.issued_at
      → whole_second c.expires_at ≡ c.expires_at
      → now < c.expires_at
      → j.parse_signed k now text ≡ ok (c, true)

whole_second-whole_second : (t : ℕ) → whole_second (whole_second t) ≡ whole_second t
whole_second-whole_second t = omega arith

-- A token that was made is accepted up to the whole second of 24 hours after the second reading of the
-- clock, and shows the account and the role that it was made for.
pub authorize_jwt-generate_token :
    (j : Jwt) (laws : TokenLaws j) (k : Keys) (user : ℕ) (role : String) (issued_at later now : ℕ)
    (token : String)
    → generate_token j k user role issued_at later ≡ ok token
    → is_empty token ≡ false
    → now < whole_second (later + day)
    → authorize_jwt j k (some token) now ≡ some (user, role)
unfolding generate_token authorize_jwt validate_token
authorize_jwt-generate_token j laws k user role issued_at later now token made full before =
    let claims : Claims = record {
      user_id = user;
      role = role;
      issuer = k.issuer;
      issued_at = j.numeric_date issued_at;
      expires_at = j.numeric_date (later + day);
    } in
    let method = laws.signed_method k.secret_key claims token made in
    let whole = λ (t : ℕ).
      subst (λ (x : ℕ). whole_second x ≡ x) (sym (laws.whole_seconds t))
        (whole_second-whole_second t) in
    let shown =
      laws.signed_claims k.secret_key claims token now made (whole issued_at) (whole (later + day))
        (subst (λ (x : ℕ). now < x) (sym (laws.whole_seconds (later + day))) before) in
    rw (full, method, shown) (ground (arith, eq_iff k.issuer k.issuer))
