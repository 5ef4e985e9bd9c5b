-- ===== src/Account/Reset/Honoured.antt =====
-- The reset with an OTP that was mailed.
use goshop_x.Base.{
  ◌-◌, ◌∙◌, sym, inr, ◌<◌, inl, suc, Bool-cases, byte_length, subst, ltb, if◌then◌else◌, false,
  Holds-map, is_empty, pos, ◌≤◌, ◌+◌, [], some, ◌∷◌, same, ◌++◌, Holds, true, trim_space, arith, ok,
  Session, List, ◌≡◌, String, ℕ,
}
use goshop_x.Account.Models.{Account, normalize_role}
use goshop_x.Account.Tables.{
  has_email, is_account, assign_reset, assign_password, Event, Tables, Backend, password_reset_otp,
}
use goshop_x.Account.Reset.{ten_minutes, with_otp, request_password_reset, reset_password}
use goshop_x.Account.Reset.Opened.{Shows}
use goshop_x.Account.Reset.Accepted.{reset_password_succeeds}
use goshop_x.Account.Reset.Mailed.{last_lem, longer_lem, mail, request_lem}
use goshop_x.Account.Reset.Spent.{AccountLaws, HasOneOwner}

-- What is documented of bcrypt: a password verifies against a hash that was made of it.
abbrev pub HashLaw : Backend → Type 0
HashLaw b =
    (i : ℕ) (password hash : String)
    → b.hash_password i password ≡ ok hash
    → b.verify_password password hash ≡ true

module _ (b : Backend) where
  -- The rows of an e-mail after an OTP was stored for it.
  stored_row_lem :
      (laws : AccountLaws b) (email hash : String) (now n : ℕ) (row y : Account)
      (rows rows' : List Account)
      → HasOneOwner b email rows
      → b.account_orm.first (has_email email) rows ≡ ok row
      → b.account_orm.updates
          (is_account row.id)
          (assign_reset (with_otp (normalize_role row) hash now))
          rows
        ≡ ok (n, rows')
      → Holds rows' y
      → same y.email email ≡ true
      → (y.password_reset_otp_hash ≡ hash)
        × (y.password_reset_expires_at ≡ some (now + ten_minutes))
        × (y.password_reset_attempts ≡ pos 0)
  unfolding normalize_role
  stored_row_lem laws email hash now n row y rows rows' one shown stored held mine =
      let write = assign_reset (with_otp (normalize_role row) hash now) in
      let (hit, at_row) = laws.first_hit (has_email email) rows row shown in
      let (rewritten, _) = laws.updates_rows (is_account row.id) write n rows rows' stored in
      let (x, at_x, eq) =
        Holds-map (λ (x : Account). if is_account row.id x then write x else x) rows y
          (subst (λ r. Holds r y) rewritten held) in
      elim (Bool-cases (is_account row.id x)) [
        | inl own ↦ (ground (arith, own, eq), ground (arith, own, eq), ground (arith, own, eq))
        | inr other ↦
            let kept : y ≡ x = ground (arith, other, eq) in
            let same_id : x.id ≡ row.id =
              one x row at_x at_row (subst (λ (z : Account). same z.email email ≡ true) kept mine)
                hit in
            ground (arith, other, same_id)
      ]

  mail_otp_lem :
      (a : Account) (id : ℕ) (to key otp otp' : String)
      → password_reset_otp id to key otp ≡ mail a otp'
      → otp ≡ otp'
  mail_otp_lem a id to key otp otp' e = ground (arith, e)

  -- The OTP of a mail is good. Let a request for an e-mail that belongs to one account go through
  -- and mail an OTP. If then the e-mail shows an account, and before the time that it shows that
  -- OTP, not blank, is given with a new password of eight bytes at least, and the hash and the
  -- update go through, then the reset goes through and leaves the rows of that update; and that
  -- time is ten minutes after a reading of the clock in the request. The mapper keeps its laws, and
  -- a password verifies against its hash.
  pub reset_password-request_password_reset :
      (laws : AccountLaws b) (hash_law : HashLaw b) (email : String) (s t s' : Session Tables Event)
      (id : ℕ) (to key otp pw hash : String) (row : Account) (at n : ℕ) (rows : List Account)
      → HasOneOwner b (trim_space email) s.db.accounts
      → request_password_reset b email s ≡ (ok tt, t)
      → t.published ≡ s.published ++ (password_reset_otp id to key otp ∷ [])
      → s'.db.accounts ≡ t.db.accounts
      → Shows b s' (trim_space email) row
      → row.password_reset_expires_at ≡ some at
      → b.driver.clock s'.ticks ≤ at
      → is_empty (trim_space otp) ≡ false
      → ltb (byte_length pw) 8 ≡ false
      → b.hash_password (suc s'.ticks) pw ≡ ok hash
      → b.account_orm.updates
          (is_account row.id)
          (assign_password (record (normalize_role row) { password = hash }))
          s'.db.accounts
        ≡ ok (n, rows)
      → ((reset_password b email otp pw s').0 ≡ ok tt)
        × ((reset_password b email otp pw s').1.db.accounts ≡ rows)
        × ((i : ℕ) × (s.ticks ≤ i) × (i < t.ticks) × (at ≡ b.driver.clock i + ten_minutes))
  unfolding normalize_role
  reset_password-request_password_reset laws hash_law email s t s' id to key otp pw hash row at n
        rows one asked mailed left shown until live given long made written =
      elim (request_lem b email s t asked) [
        | inl silent ↦
            absurd (longer_lem s.published (password_reset_otp id to key otp) (sym silent ∙ mailed))
        | inr (old, old_shown, (i, otp', hash', k, after, before, hashed_otp, stored, out)) ↦
            elim out [
              | inl silent ↦
                  absurd (
                    longer_lem s.published (password_reset_otp id to key otp) (sym silent ∙ mailed))
              | inr sent ↦
                  let same_otp : otp ≡ otp' = mail_otp_lem (normalize_role old) id to key otp otp' (
                    last_lem s.published (password_reset_otp id to key otp)
                      (mail (normalize_role old) otp') (sym mailed ∙ sent)) in
                  let (mine, held) =
                    laws.first_hit (has_email (trim_space email)) s'.db.accounts row shown in
                  let (own_hash, expires, none_spent) =
                    stored_row_lem laws (trim_space email) hash' (b.driver.clock i) k old row
                      s.db.accounts t.db.accounts one old_shown stored
                      (subst (λ r. Holds r row) left held) mine in
                  let right : b.verify_password otp row.password_reset_otp_hash ≡ true =
                    rw (same_otp, own_hash) (hash_law (i - 1) otp' hash' hashed_otp) in
                  let time : at ≡ b.driver.clock i + ten_minutes = ground (arith, expires, until) in
                  let (through, rows_left) =
                    reset_password_succeeds b email otp pw s' row at n hash rows long given shown
                      until live (ground (arith, none_spent)) right made written in
                  (through, rows_left, (i, after, before, time))
            ]
      ]
