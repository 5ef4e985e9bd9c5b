-- ===== src/Account/Login/Granted.antt =====
-- Who a login lets in, and what the token is good for.
use goshop_x.Account.Tokens.{authorize_jwt, day, generate_token}
use goshop_x.Base.{
  refl, ap, ℤ, Bool-cases, inl, inr, Result-cases, eq_ℤ, if◌then◌else◌, some, ◌+◌, ◌<◌, ℕ, true,
  arith, false, suc, is_empty, ok, ◌≡◌, String, Session,
}
use goshop_x.Account.Models.{
  clamped_role_id, role_customer, role_admin_id, role_name, normalize_role, Account,
}
use goshop_x.Account.Login.{is_suspended, login, issue_token}
use goshop_x.Account.Tokens.Signed.{whole_second, authorize_jwt-generate_token, TokenLaws}
use goshop_x.Account.Tables.{has_email, Event, Tables, get_account_by_email, Backend}

module _ (b : Backend) (laws : TokenLaws b.jwt) where
  issue_token-eq-ok :
      (a : Account) (s : Session Tables Event) {token : String} {t : Session Tables Event}
      → issue_token b a s ≡ (ok token, t)
      → generate_token b.jwt b.keys a.id a.role
          (b.driver.clock s.ticks)
          (b.driver.clock (suc s.ticks))
        ≡ ok token
  unfolding issue_token
  issue_token-eq-ok a s e = ground (arith, e)

  stable_role_lem :
      (r : ℤ)
      → role_name (clamped_role_id (clamped_role_id r))
        ≡ (if eq_ℤ r role_admin_id then "admin" else role_customer)
  unfolding role_name
  stable_role_lem r = elim (Bool-cases (eq_ℤ r role_admin_id)) [
    | inl admin ↦ rw (admin, admin, admin) refl
    | inr other ↦ rw (other) refl
  ]

  -- A login that goes through: the e-mail shows an account that is not suspended and whose password was
  -- given, and a request with the token acts for that account, as an administrator exactly when its role
  -- number is that of one, up to the whole second of 24 hours after the second reading of the clock.
  pub login-eq-ok :
      (email password : String) (s : Session Tables Event) {token : String}
      {t : Session Tables Event}
      → login b email password s ≡ (ok token, t)
      → is_empty token ≡ false
      → (row : Account) × (b.account_orm.first (has_email email) s.db.accounts ≡ ok row)
        × (is_suspended row ≡ false)
        × (b.verify_password password row.password ≡ true)
        × ((now : ℕ)
            → now < whole_second (b.driver.clock (suc s.ticks) + day)
            → authorize_jwt b.jwt b.keys (some token) now
              ≡ some (row.id, if eq_ℤ row.role_id role_admin_id then "admin" else role_customer))
  unfolding login get_account_by_email normalize_role role_name
  login-eq-ok email password s {token} {t} e full =
      elim (Result-cases (b.account_orm.first (has_email email) s.db.accounts)) [
        | inr (x, k) ↦ ground (arith, k, e)
        | inl (row, k) ↦ elim (Bool-cases (b.verify_password password row.password)) [
          | inr wrong ↦ ground (arith, k, wrong, e)
          | inl right ↦ elim (Bool-cases (is_suspended row)) [
            | inl out ↦ ground (arith, k, right, out, e)
            | inr active ↦
                let again = normalize_role (normalize_role row) in
                let issued : issue_token b again s ≡ (ok token, t) =
                  ground (arith, k, right, active, e) in
                (
                  row,
                  k,
                  active,
                  right,
                  λ now before.
                      rw
                        (authorize_jwt-generate_token b.jwt laws b.keys again.id again.role
                          (b.driver.clock s.ticks) (b.driver.clock (suc s.ticks)) now token
                          (issue_token-eq-ok again s issued) full before)
                        (ap (λ (r : String). some (row.id, r)) (stable_role_lem row.role_id)),
                )
          ]
        ]
      ]
