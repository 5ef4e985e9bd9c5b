-- ===== src/Account/Reset/Spent.antt =====
-- A password reset that goes through, and the one after it.
use goshop_x.Account.Reset.Opened.{change_password-eq-ok, try_otp-eq-ok, open_reset-eq-ok, Shows}
use goshop_x.Base.{
  subst, ◌≢◌, if◌then◌else◌, Holds-map, none, ◌==◌, same, Laws, Holds, inr, inl, Bool-cases, arith,
  is_empty, ◌||◌, byte_length, ltb, >>=-eq-ok, suc, ◌≤◌, some, true, pos, ◌<ℤ◌, trim_space, ok, ◌≡◌,
  ℕ, Session, List, String,
}
use goshop_x.Account.Reset.{try_otp, open_reset, reset_password}
use goshop_x.Account.Models.{normalize_role, Account}
use goshop_x.Account.Tables.{has_email, assign_password, Event, is_account, Tables, Backend}

module _ (b : Backend) where
  -- The rows as the reset leaves them: the account of `row` has the new password and no OTP any more.
  abbrev pub IsChanged : Account → String → List Account → List Account → Type 0
  IsChanged row hash rows rows' =
      (n : ℕ) × (b.account_orm.updates (is_account row.id)
          (assign_password (record (normalize_role row) { password = hash })) rows
        ≡ ok (n, rows'))

  abbrev pub Accepts :
      Session Tables Event → String → String → String → Session Tables Event → Type 0
  Accepts s email otp pw t =
      (row : Account) × Shows b s (trim_space email) row
      × (row.password_reset_attempts <ℤ pos 5)
      × (b.verify_password otp row.password_reset_otp_hash ≡ true)
      × ((at : ℕ) × (row.password_reset_expires_at ≡ some at) × (b.driver.clock s.ticks ≤ at))
      × ((hash : String) × (b.hash_password (suc s.ticks) pw ≡ ok hash)
          × IsChanged row hash s.db.accounts t.db.accounts)

  opened_lem :
      (email otp pw : String) (s s2 : Session Tables Event) (a : Account) {u : Unit {0}}
      {t : Session Tables Event}
      → open_reset b email s ≡ (ok a, s2)
      → try_otp b a otp pw s2 ≡ (ok u, t)
      → Accepts s email otp pw t
  unfolding normalize_role
  opened_lem email otp pw s s2 a {u} {t} opened tried =
      let (few, verified, changed) = try_otp-eq-ok b s2 a otp pw tried in
      let (hash, made, (n, stored)) = change_password-eq-ok b s2 a pw changed in
      let (row, shown, eq_a, live, eq_s2) = open_reset-eq-ok b s email opened in
      (
        row,
        shown,
        rw eq_a at few,
        rw eq_a at verified,
        live,
        (hash, rw eq_s2 at made, (n, rw (eq_a, eq_s2) at stored)),
      )

  -- A reset that goes through: the account that the e-mail shows had an OTP that has not expired, fewer
  -- than five guesses were spent on it, the OTP verifies against its hash, and the update is the one
  -- that stores the new password's hash.
  reset_password-eq-ok :
      (email otp pw : String) (s : Session Tables Event) {u : Unit {0}} {t : Session Tables Event}
      → reset_password b email otp pw s ≡ (ok u, t)
      → Accepts s email otp pw t
  unfolding reset_password
  reset_password-eq-ok email otp pw s {u} {t} e =
      elim (Bool-cases (ltb (byte_length pw) 8 || is_empty (trim_space otp))) [
        | inl bad ↦ ground arith
        | inr good ↦
            let (a, s2, opened, tried) =
              >>=-eq-ok (open_reset b email) (λ (a : Account). try_otp b a otp pw) s {b = u} {u = t}
                (ground arith) in
            opened_lem email otp pw s s2 a opened tried
      ]

  -- The rows with this e-mail are of one account.
  abbrev pub HasOneOwner : String → List Account → Type 0
  HasOneOwner email rows =
      (x y : Account)
      → Holds rows x
      → Holds rows y
      → same x.email email ≡ true
      → same y.email email ≡ true
      → x.id ≡ y.id

  abbrev pub AccountLaws : Type 0
  AccountLaws =
      Laws b.account_orm (λ x y. x.id == y.id) (λ x y. x.id == y.id)
        (λ r r'. r' ≡ record r { id = r'.id })

  -- No row with this e-mail has a reset open.
  changed_rows_lem :
      (laws : AccountLaws) (email hash : String) (row : Account) (rows rows' : List Account)
      → HasOneOwner email rows
      → b.account_orm.first (has_email email) rows ≡ ok row
      → IsChanged row hash rows rows'
      → (y : Account) → Holds rows' y
      → same y.email email ≡ true
      → y.password_reset_expires_at ≡ none
  unfolding normalize_role
  changed_rows_lem laws email hash row rows rows' one shown (n, stored) y held mine =
      let written = record (normalize_role row) { password = hash } in
      let (hit, at_row) = laws.first_hit (has_email email) rows row shown in
      let (rewritten, _) =
        laws.updates_rows (is_account row.id) (assign_password written) n rows rows' stored in
      let (x, at_x, eq) =
        Holds-map (λ (x : Account). if is_account row.id x then assign_password written x else x)
          rows y (subst (λ r. Holds r y) rewritten held) in
      elim (Bool-cases (is_account row.id x)) [
        | inl own ↦ ground arith
        | inr other ↦
            let kept : y ≡ x = ground arith in
            let same_id : x.id ≡ row.id =
              one x row at_x at_row (subst (λ (z : Account). same z.email email ≡ true) kept mine)
                hit in
            ground arith
      ]

  -- An OTP is good for one reset: after a reset that went through, where the e-mail belongs to one
  -- account, no reset for the same e-mail goes through on the accounts that it left, whatever the OTP,
  -- the new password and the time.
  pub reset_password-once :
      (laws : AccountLaws) (email otp pw otp' pw' : String) (s t s' : Session Tables Event)
      → HasOneOwner (trim_space email) s.db.accounts
      → reset_password b email otp pw s ≡ (ok tt, t)
      → s'.db.accounts ≡ t.db.accounts
      → (t' : Session Tables Event) → reset_password b email otp' pw' s' ≢ (ok tt, t')
  reset_password-once laws email otp pw otp' pw' s t s' one first_ok left t' second_ok =
      let (row, shown, _, _, _, (hash, _, changed)) =
        reset_password-eq-ok email otp pw s first_ok in
      let (row', shown', _, _, (at, open_until, _), _) =
        reset_password-eq-ok email otp' pw' s' second_ok in
      let (hit, held) = laws.first_hit (has_email (trim_space email)) s'.db.accounts row' shown' in
      let closed : row'.password_reset_expires_at ≡ none =
        changed_rows_lem laws (trim_space email) hash row s.db.accounts t.db.accounts one shown
          changed row' (subst (λ r. Holds r row') left held) hit in
      ground (arith, closed, open_until)
