-- ===== src/Account/Reset/Locked.antt =====
-- Guesses after the fifth: a run of resets for one e-mail, whatever is tried.
use goshop_x.Account.Reset.Opened.{open_reset-eq-ok}
use goshop_x.Account.Reset.{try_otp, refuse_guess, open_reset, after_guess, reset_password}
use goshop_x.Account.Reset.Spent.{AccountLaws}
use goshop_x.Account.Models.{normalize_role, Account}
use goshop_x.Base.{
  is_empty, ◌||◌, byte_length, Option-cases, ltb, Result-cases, err, Fault, resume, trim_space,
  refl, sym, ap, subst, ◌∙◌, map-map_agrees, inr, inl, Bool-cases, subst, Holds-map, if◌then◌else◌,
  ok, wrap64-pos, pos-add, ◌^◌, ◌<◌, Result, ◌≤◌, ◌+◌, true, pos, arith, same, suc, ◌≡◌, map, Holds,
  Session, List, ℕ, String,
}
use goshop_x.Account.Tables.{
  has_email, update_row, save_password_reset, get_account_by_email, assign_reset, is_account, Event,
  Tables, Backend,
}

module _ (b : Backend) where
  -- Resets for one e-mail, one after another, whatever their outcome; between two of them the clock may
  -- move and events may be sent.
  pub data Guesses (email : String) : Session Tables Event → ℕ → Session Tables Event → Type 0 where
    stop : (s : Session Tables Event) → Guesses email s 0 s
    guess :
        (s t t' u : Session Tables Event) (n : ℕ) (otp pw : String) (r : Result (Unit {0}))
        → reset_password b email otp pw s ≡ (r, t)
        → t'.db ≡ t.db
        → Guesses email t' n u
        → Guesses email s (suc n) u

  -- Five guesses were spent on each of the rows, and the counter has room for `n` more.
  abbrev pub IsLocked : ℕ → String → List Account → Type 0
  IsLocked n email rows =
      (x : Account)
      → Holds rows x
      → same x.email email ≡ true
      → (m : ℕ) × (x.password_reset_attempts ≡ pos m) × (5 ≤ m) × (m + n < 2 ^ 63)

  abbrev passwords : List Account → List String
  passwords = map (λ (a : Account). a.password)

  -- What a call may leave: the passwords, and one guess less.
  abbrev Keeps : ℕ → String → List Account → List Account → Type 0
  Keeps n email rows rows' = IsLocked n email rows' × (passwords rows' ≡ passwords rows)

  weaken_lem :
      (n : ℕ) (email : String) (rows : List Account)
      → IsLocked (suc n) email rows
      → IsLocked n email rows
  weaken_lem n email rows locked x held mine =
      let (m, spent, five, room) = locked x held mine in (m, spent, five, omega (arith, room))

  counted_lem :
      (a : Account) (m n : ℕ)
      → a.password_reset_attempts ≡ pos m
      → m + suc n < 2 ^ 63
      → (after_guess a).password_reset_attempts ≡ pos (m + 1)
  counted_lem a m n spent room =
      rw (spent, pos-add m 1, wrap64-pos (m + 1) (omega (arith, room))) refl

  same_password_lem :
      (a x : Account)
      → (if is_account a.id x then assign_reset (after_guess a) x else x).password ≡ x.password
  same_password_lem a x = elim (Bool-cases (is_account a.id x)) [
    | inl own ↦ ground arith
    | inr other ↦ ground arith
  ]

  assigned_lem :
      (laws : AccountLaws b) (n k : ℕ) (email : String) (a : Account) (m : ℕ)
      (rows rows' : List Account)
      → IsLocked (suc n) email rows
      → a.password_reset_attempts ≡ pos m
      → 5 ≤ m
      → m + suc n < 2 ^ 63
      → b.account_orm.updates (is_account a.id) (assign_reset (after_guess a)) rows ≡ ok (k, rows')
      → Keeps n email rows rows'
  assigned_lem laws n k email a m rows rows' locked spent five room stored =
      let write =
        λ (x : Account). if is_account a.id x then assign_reset (after_guess a) x else x in
      let (rewritten, _) =
        laws.updates_rows (is_account a.id) (assign_reset (after_guess a)) k rows rows' stored in
      (
        (λ y held mine.
            let (x, at_x, eq) = Holds-map write rows y (subst (λ r. Holds r y) rewritten held) in
            elim (Bool-cases (is_account a.id x)) [
              | inl own ↦
                  let written : y ≡ assign_reset (after_guess a) x = ground (arith, eq, own) in
                  let counted : y.password_reset_attempts ≡ pos (m + 1) =
                    ap (λ (z : Account). z.password_reset_attempts) written
                    ∙ counted_lem a m n spent room in
                  (m + 1, counted, omega (arith, five), omega (arith, room))
              | inr other ↦
                  let kept : y ≡ x = ground (arith, eq, other) in
                  weaken_lem n email rows locked y (subst (λ z. Holds rows z) (sym kept) at_x) mine
            ]),
        subst (λ r. passwords r ≡ passwords rows) (sym rewritten)
            (map-map_agrees (λ (z : Account). z.password) write rows (same_password_lem a)),
      )

  open_reset-eq-err :
      (email : String) (s : Session Tables Event) {e : Fault} {t : Session Tables Event}
      → open_reset b email s ≡ (err e, t)
      → t.db ≡ s.db
  unfolding open_reset get_account_by_email normalize_role
  open_reset-eq-err email s {e} {t} eq =
      elim (Result-cases (b.account_orm.first (has_email (trim_space email)) s.db.accounts)) [
        | inr (x, k) ↦ ground arith
        | inl (row, k) ↦ elim (Option-cases row.password_reset_expires_at) [
          | inl closed ↦ ground arith
          | inr (at, open_until) ↦ ground arith
        ]
      ]

  refuse_guess_lem :
      (laws : AccountLaws b) (n m : ℕ) (email : String) (a : Account) (s : Session Tables Event)
      {r : Result (Unit {0})} {t : Session Tables Event}
      → IsLocked (suc n) email s.db.accounts
      → a.password_reset_attempts ≡ pos m
      → 5 ≤ m
      → m + suc n < 2 ^ 63
      → refuse_guess b a s ≡ (r, t)
      → Keeps n email s.db.accounts t.db.accounts
  unfolding refuse_guess save_password_reset update_row
  refuse_guess_lem laws n m email a s {r} {t} locked spent five room eq =
      elim (Result-cases
        (b.account_orm.updates (is_account a.id) (assign_reset (after_guess a)) s.db.accounts)) [
          | inl ((k, rows), stored) ↦
              let left : t.db.accounts ≡ rows = ground (arith, stored, eq) in
              subst (Keeps n email s.db.accounts) (sym left)
                (assigned_lem laws n k email a m s.db.accounts rows locked spent five room stored)
          | inr (x, failed) ↦
              let left : t.db.accounts ≡ s.db.accounts = ground (arith, failed, eq) in
              subst (Keeps n email s.db.accounts) (sym left)
                (weaken_lem n email s.db.accounts locked, refl)
        ]

  opened_lem :
      (laws : AccountLaws b) (n : ℕ) (email otp pw : String) (s s2 : Session Tables Event)
      (a : Account) {r : Result (Unit {0})} {t : Session Tables Event}
      → IsLocked (suc n) (trim_space email) s.db.accounts
      → open_reset b email s ≡ (ok a, s2)
      → try_otp b a otp pw s2 ≡ (r, t)
      → Keeps n (trim_space email) s.db.accounts t.db.accounts
  unfolding normalize_role try_otp
  opened_lem laws n email otp pw s s2 a {r} {t} locked opened tried =
      let (row, shown, eq_a, _, eq_s2) = open_reset-eq-ok b s email opened in
      let (hit, held) = laws.first_hit (has_email (trim_space email)) s.db.accounts row shown in
      let (m, spent, five, room) = locked row held hit in
      let spent_a : a.password_reset_attempts ≡ pos m = ground (arith, eq_a, spent) in
      let refused : refuse_guess b a s2 ≡ (r, t) = ground (arith, spent_a, five, tried) in
      let same_rows : s2.db.accounts ≡ s.db.accounts = ground (arith, eq_s2) in
      subst (λ rows. Keeps n (trim_space email) rows t.db.accounts) same_rows
        (refuse_guess_lem laws n m (trim_space email) a s2
          (subst (IsLocked (suc n) (trim_space email)) (sym same_rows) locked) spent_a five room
          refused)

  step_lem :
      (laws : AccountLaws b) (n : ℕ) (email otp pw : String) (s : Session Tables Event)
      {r : Result (Unit {0})} {t : Session Tables Event}
      → IsLocked (suc n) (trim_space email) s.db.accounts
      → reset_password b email otp pw s ≡ (r, t)
      → Keeps n (trim_space email) s.db.accounts t.db.accounts
  unfolding reset_password
  step_lem laws n email otp pw s {r} {t} locked e =
      elim (Bool-cases (ltb (byte_length pw) 8 || is_empty (trim_space otp))) [
        | inl bad ↦
            let left : t.db.accounts ≡ s.db.accounts = ground (arith, bad, e) in
            subst (Keeps n (trim_space email) s.db.accounts) (sym left)
              (weaken_lem n (trim_space email) s.db.accounts locked, refl)
        | inr good ↦ go (open_reset b email s) refl (ground (arith, good, e))
      ]
    where
      go :
          (p : Result Account × Session Tables Event)
          → open_reset b email s ≡ p
          → resume p (λ a. try_otp b a otp pw) ≡ (r, t)
          → Keeps n (trim_space email) s.db.accounts t.db.accounts
      go (ok a, s2) opened tried = opened_lem laws n email otp pw s s2 a locked opened tried
      go (err x, s2) failed tried =
          let unchanged : s2.db ≡ s.db = open_reset-eq-err email s failed in
          let left : t.db.accounts ≡ s.db.accounts = ground (arith, unchanged, tried) in
          subst (Keeps n (trim_space email) s.db.accounts) (sym left)
            (weaken_lem n (trim_space email) s.db.accounts locked, refl)

  -- Five wrong guesses lock the resets of an e-mail: from a state where every account with the e-mail has
  -- spent five guesses, and the counter has room for n more, no run of n resets changes the password of
  -- any account, whatever OTPs and new passwords are tried and however the clock moves.
  pub Guesses-kept :
      (laws : AccountLaws b) (email : String) (n : ℕ) (s u : Session Tables Event)
      → IsLocked n (trim_space email) s.db.accounts
      → Guesses email s n u
      → map (λ (a : Account). a.password) u.db.accounts
        ≡ map (λ (a : Account). a.password) s.db.accounts
  Guesses-kept laws email n s u locked (stop _) = refl
  Guesses-kept laws email n s u locked (guess _ t t' _ k otp pw r tried moved rest) =
      let (still, kept) = step_lem laws k email otp pw s locked tried in
      let same_rows : t.db.accounts ≡ t'.db.accounts =
        ap (λ (x : Tables). x.accounts) (sym moved) in
      let later =
        Guesses-kept laws email k t' u (subst (IsLocked k (trim_space email)) same_rows still)
          rest in
      later ∙ subst (λ rows. passwords rows ≡ passwords s.db.accounts) same_rows kept
