-- ===== src/Examples/Accounts.antt =====
-- One account on tables in memory, with tokens that are signed for it alone.
use goshop_x.Account.Reset.Opened.{Shows}
use goshop_x.Account.Reset.Honoured.{HashLaw, reset_password-request_password_reset}
use goshop_x.Account.Reset.Locked.{stop, guess, Guesses-kept, IsLocked, Guesses}
use goshop_x.Account.Login.Granted.{login-eq-ok}
use goshop_x.Memory.{memory-Laws, memory}
use goshop_x.Account.Reset.Spent.{reset_password-once, HasOneOwner}
use goshop_x.Account.Reset.{
  draw_otp, send_otp, still_live, renew_otp, request_password_reset, ten_minutes, refuse_guess,
  change_password, try_otp, open_reset, reset_password,
}
use goshop_x.Account.Login.{hashed, issue_token, is_suspended, blank_account, login}
use goshop_x.Base.{
  ◌≤◌, is_empty, ◌+ℤ◌, wrap64, map, invalid_otp, pos, Result, zero, eq_ℤ, refl, inr, ◌<◌, decimal,
  String, ◌∙◌, suc, ℕ, append, subst, eq_iff, ltb, sym, false, length, arith, external, ◌&&◌, ap,
  [], some, inl, true, err, ◌==◌, ok, trim_space, ◌∷◌, same, none, Bool-cases, ◌≡◌, if◌then◌else◌,
  Bool, ◌+◌, Holds, ◌≢◌, Session,
}
use goshop_x.Account.Models.{role_name, role_customer, normalize_role, role_admin_id, Account}
use goshop_x.Account.Tables.{
  assign_password, is_account, password_reset_otp, save_password_reset, update_password,
  send_message, update_row, account_audited, Event, has_email, get_account_by_email, Tables,
  Backend,
}
use goshop_x.Account.Tokens.Signed.{whole_second, TokenLaws}
use goshop_x.Account.Tokens.{authorize_jwt, generate_token, day, Jwt, Claims}

-- A signer that knows one set of claims.
abbrev known : Claims
known = record { user_id = 7; role = "customer"; issuer = "shop"; issued_at = 0; expires_at = day }

is_known : Claims → Bool
is_known c =
    c.user_id == 7
    && same c.role "customer"
    && same c.issuer "shop"
    && c.issued_at == 0
    && c.expires_at == day

sign_known : String → Claims → Result String
unfolding is_known
sign_known k c = if is_known c then ok "token" else err (external 2)

abbrev parse_known : String → ℕ → String → Result (Claims × Bool)
parse_known k now text =
    if same text "token" && ltb now day then ok (known, true) else err (external 3)

abbrev signer : Jwt
signer = record {
  numeric_date = whole_second;
  sign_hs256 = sign_known;
  is_hmac = λ text. same text "token";
  parse_signed = parse_known;
}

signed_lem :
    (k : String) (c : Claims) (text : String)
    → sign_known k c ≡ ok text
    → ("token" ≡ text) × (is_known c ≡ true)
unfolding sign_known
signed_lem k c text made = elim (Bool-cases (is_known c)) [
  | inl mine ↦ (ground (arith, mine, made), mine)
  | inr other ↦ ground (arith, other, made)
]

is_known_lem : (c : Claims) → is_known c ≡ true → c ≡ known
unfolding is_known
is_known_lem c h = ground (arith, h, eq_iff c.role "customer", eq_iff c.issuer "shop")

signer-TokenLaws : TokenLaws signer
signer-TokenLaws = record {
  whole_seconds = λ _. refl;
  signed_method = λ k c text made.
      subst (λ (x : String). same x "token" ≡ true) ((signed_lem k c text made).0) refl;
  signed_claims = λ k c text now made _ _ before.
      let (shown, mine) = signed_lem k c text made in
      let early : now < day =
        subst (λ (x : Claims). now < x.expires_at) (is_known_lem c mine) before in
      subst (λ (x : String). parse_known k now x ≡ ok (c, true)) shown
        (subst (λ (x : Claims). parse_known k now "token" ≡ ok (x, true))
          (sym (is_known_lem c mine)) (ground (arith, early)));
}

abbrev backend : Backend
backend = record {
  driver = record { begin_fault = λ _. none; commit_fault = λ _. none; clock = λ i. i };
  account_orm =
      memory (λ x y. x.id == y.id) (λ x y. x.id == y.id)
        (λ rows r. record r { id = length rows + 1 });
  audit_orm =
      memory (λ x y. same x.event_id y.event_id) (λ x y. same x.event_id y.event_id) (λ _ x. x);
  hash_password = λ _ password. ok (append "#" password);
  verify_password = λ password hash. same (append "#" password) hash;
  jwt = signer;
  keys = record { secret_key = "key"; issuer = "shop" };
  google_client_id = "";
  validate_google = λ _. ok none;
  random_otp = λ _. ok "424242";
  show_nanos = decimal;
  has_producer = true;
  marshal_fault = λ _. none;
}

abbrev member : Account
member = record blank_account {
  id = 7;
  name = "Lan";
  email = "lan@shop";
  password = "#secret";
  password_reset_otp_hash = "#424242";
  password_reset_expires_at = some 100;
  role = "";
}

abbrev opened : Session Tables Event
opened = record {
  db = record { accounts = member ∷ []; audit_events = [] };
  tx = none;
  ticks = 0;
  published = [];
}

member_logs_in :
    login backend "lan@shop" "secret" opened ≡ (ok "token", record opened { ticks = 2 })
unfolding login get_account_by_email normalize_role role_name issue_token generate_token is_known
    sign_known
member_logs_in = refl

login-eq-ok_example :
    (row : Account) × (backend.account_orm.first (has_email "lan@shop") opened.db.accounts ≡ ok row)
    × (is_suspended row ≡ false)
    × (backend.verify_password "secret" row.password ≡ true)
    × ((now : ℕ)
        → now < whole_second (backend.driver.clock (suc opened.ticks) + day)
        → authorize_jwt backend.jwt backend.keys (some "token") now
          ≡ some (row.id, if eq_ℤ row.role_id role_admin_id then "admin" else role_customer))
login-eq-ok_example =
    login-eq-ok backend signer-TokenLaws "lan@shop" "secret" opened member_logs_in refl

abbrev promoted : Account
promoted = record member { role_id = role_admin_id; role = "admin" }

abbrev after_promotion : Session Tables Event
after_promotion = record opened {
  db = record {
    accounts = record promoted { role = "" } ∷ [];
    audit_events =
        record {
          event_id = "1-7-0";
          actor_account_id = 1;
          target_account_id = 7;
          action = "account_role_changed";
          outcome = "success";
          request_id = "q";
          occurred_at = 1;
        }
        ∷ [];
  };
  ticks = 2;
  published = account_audited 1 7 "admin" "account_role_changed" "success" "q" ∷ [];
}

abbrev after_reset : Session Tables Event
after_reset = record opened {
  db = record {
    accounts =
        record member {
          password = "#new-secret";
          password_reset_otp_hash = "";
          password_reset_expires_at = none;
        }
        ∷ [];
    audit_events = [];
  };
  ticks = 2;
}

password_reset :
    reset_password backend " lan@shop" "424242" "new-secret" opened ≡ (ok tt, after_reset)
unfolding reset_password trim_space open_reset get_account_by_email normalize_role try_otp
    change_password hashed update_password update_row
password_reset = refl

only_lem : {A : Type 0} (a x : A) → Holds (a ∷ []) x → a ≡ x
only_lem a x (zero, e) = ground (arith, e)
only_lem a x (suc i, e) = cc

member-HasOneOwner : HasOneOwner backend (trim_space " lan@shop") opened.db.accounts
member-HasOneOwner x y hx hy _ _ =
    ap (λ (a : Account). a.id) (sym (only_lem member x hx) ∙ only_lem member y hy)

reset_password-once_example :
    reset_password backend " lan@shop" "424242" "stolen-one" after_reset ≢ (ok tt, opened)
reset_password-once_example =
    reset_password-once backend
      (memory-Laws (λ x y. x.id == y.id) (λ x y. x.id == y.id)
        (λ rows r. record r { id = length rows + 1 }) (λ r r'. r' ≡ record r { id = r'.id })
        (λ _ _. refl))
      " lan@shop" "424242" "new-secret" "424242" "stolen-one" opened after_reset after_reset
      member-HasOneOwner password_reset refl opened

abbrev spent_member : Account
spent_member = record member { password_reset_attempts = pos 5 }

abbrev spent : Session Tables Event
spent = record opened { db = record { accounts = spent_member ∷ []; audit_events = [] } }

abbrev after_sixth : Session Tables Event
after_sixth = record spent {
  db = record {
    accounts = record spent_member { password_reset_attempts = pos 6 } ∷ [];
    audit_events = [];
  };
  ticks = 1;
}

sixth_guess :
    reset_password backend "lan@shop" "424242" "new-secret" spent ≡ (err invalid_otp, after_sixth)
unfolding reset_password trim_space open_reset get_account_by_email normalize_role try_otp
    refuse_guess save_password_reset update_row wrap64 ◌+ℤ◌
sixth_guess = refl

one_guess : Guesses backend "lan@shop" spent 1 after_sixth
one_guess =
    guess spent after_sixth after_sixth after_sixth 0 "424242" "new-secret" (err invalid_otp)
      sixth_guess refl (stop after_sixth)

spent-IsLocked : IsLocked backend 1 (trim_space "lan@shop") spent.db.accounts
spent-IsLocked x held mine = (
  5,
  ap (λ (a : Account). a.password_reset_attempts) (sym (only_lem spent_member x held)),
  omega arith,
  omega arith,
)

Guesses-kept_example :
    map (λ (a : Account). a.password) after_sixth.db.accounts
    ≡ map (λ (a : Account). a.password) spent.db.accounts
Guesses-kept_example =
    Guesses-kept backend
      (memory-Laws (λ x y. x.id == y.id) (λ x y. x.id == y.id)
        (λ rows r. record r { id = length rows + 1 }) (λ r r'. r' ≡ record r { id = r'.id })
        (λ _ _. refl))
      "lan@shop" 1 spent after_sixth spent-IsLocked one_guess

abbrev forgetful : Account
forgetful = record member { password_reset_otp_hash = ""; password_reset_expires_at = none }

abbrev before_request : Session Tables Event
before_request = record opened { db = record { accounts = forgetful ∷ []; audit_events = [] } }

abbrev mailed_to : Account
mailed_to = record forgetful {
  password_reset_otp_hash = "#424242";
  password_reset_expires_at = some (2 + ten_minutes);
}

abbrev after_request : Session Tables Event
after_request = record before_request {
  db = record { accounts = mailed_to ∷ []; audit_events = [] };
  ticks = 3;
  published = password_reset_otp 7 "lan@shop" "password-reset-7" "424242" ∷ [];
}

otp_mailed : request_password_reset backend "lan@shop" before_request ≡ (ok tt, after_request)
unfolding request_password_reset trim_space get_account_by_email normalize_role renew_otp still_live
    send_otp draw_otp hashed save_password_reset update_row send_message decimal
otp_mailed = refl

abbrev renewed : Account
renewed = record forgetful { password = "#new-secret" }

forgetful-HasOneOwner : HasOneOwner backend (trim_space "lan@shop") before_request.db.accounts
forgetful-HasOneOwner x y hx hy _ _ =
    ap (λ (a : Account). a.id) (sym (only_lem forgetful x hx) ∙ only_lem forgetful y hy)

backend-HashLaw : HashLaw backend
backend-HashLaw i password hash made =
    let same_hash : append "#" password ≡ hash = ground (arith, made) in
    (eq_iff (append "#" password) hash).1 same_hash

mailed_to_shown : Shows backend after_request (trim_space "lan@shop") mailed_to
unfolding trim_space
mailed_to_shown = refl

otp_given : is_empty (trim_space "424242") ≡ false
unfolding trim_space
otp_given = refl

renewed_stored :
    backend.account_orm.updates
      (is_account 7)
      (assign_password (record (normalize_role mailed_to) { password = "#new-secret" }))
      after_request.db.accounts
    ≡ ok (1, renewed ∷ [])
unfolding normalize_role
renewed_stored = refl

reset_password-request_password_reset_example :
    ((reset_password backend "lan@shop" "424242" "new-secret" after_request).0 ≡ ok tt)
    × ((reset_password backend "lan@shop" "424242" "new-secret" after_request).1.db.accounts
        ≡ renewed ∷ [])
    × ((i : ℕ) × (0 ≤ i) × (i < 3) × (2 + ten_minutes ≡ i + ten_minutes))
reset_password-request_password_reset_example =
    reset_password-request_password_reset backend
      (memory-Laws (λ x y. x.id == y.id) (λ x y. x.id == y.id)
        (λ rows r. record r { id = length rows + 1 }) (λ r r'. r' ≡ record r { id = r'.id })
        (λ _ _. refl))
      backend-HashLaw "lan@shop" before_request after_request after_request 7 "lan@shop"
      "password-reset-7" "424242" "new-secret" "#new-secret" mailed_to (2 + ten_minutes) 1
      (renewed ∷ []) forgetful-HasOneOwner otp_mailed refl refl mailed_to_shown refl (omega arith)
      otp_given refl refl renewed_stored
