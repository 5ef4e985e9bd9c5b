-- ===== src/Payment/Gateway.antt =====
-- payment/vnpay/client.go: the signed checkout URL, and the check of a callback. The network types of
-- the standard library (URLs, addresses, query strings), the formatting of times and HMAC-SHA-512
-- are parameters.
pub mod Authentic
use goshop_x.Base.{
  bad_payment_url, missing_hash_secret, missing_terminal_code, ℕ, ℤ, pos, String, Bool, not, ◌&&◌,
  ◌||◌, Option, none, some, List, [], ◌∷◌, Result, ok, err, missing_reference, amount_not_positive,
  missing_order_info, bad_return_url, not_ipv4, amount_too_large, bad_checksum, unexpected_terminal,
  bad_amount, same, is_empty, trim_space, leb_ℤ, ltb_ℤ, eq_ℤ, if◌then◌else◌, ◌*ℤ◌, ◌/ℤ◌, ◌%ℤ◌,
  wrap64, max_int64, parse_int64, pos_part, neg_part, decimal, append, ltb, ◌+◌, ◌*◌, ◌^◌,
}
use goshop_x.Payment.Models.{CheckoutRequest, Callback}

-- `url.Values`: the keys with their values.
abbrev pub Values : Type 0
Values = List (String × List String)

-- The first value of a key, or the empty text.
unfoldable pub get_value : Values → String → String
get_value [] k = ""
get_value ((j, vs) ∷ values) k =
    if same j k then elim vs [ [] ↦ "" | v ∷ _ ↦ v ] else get_value values k

-- A URL as `url.ParseRequestURI` takes it apart.
pub record Url : Type 0 where
  pub scheme : String
  pub host : String
  pub text : String

pub record Network : Type 0 where
  pub parse_url : String → Option Url
  -- `net.ParseIP` with `To4`, as text.
  pub parse_ipv4 : String → Option String
  -- `Encode`, which sorts by key and escapes.
  pub encode : Values → String
  pub hmac_hex : String → String → String
  -- A time in Vietnam in the layout of the gateway.
  pub format_time : ℕ → String

pub record Client : Type 0 where
  pub tmn_code : String
  pub hash_secret : String
  pub payment_url : String

-- `strconv.FormatInt`.
unfoldable pub format_int : ℤ → String
format_int z =
    if ltb 0 (neg_part z) then append "-" (decimal (neg_part z)) else decimal (pos_part z)

-- Fifteen minutes, in nanoseconds.
abbrev pub expires_in : ℕ
expires_in = 15 * 60 * 10 ^ 9

abbrev pub is_signature_key : String → Bool
is_signature_key k = same k "vnp_SecureHash" || same k "vnp_SecureHashType"

-- What is signed: everything but the signature.
unfoldable pub signed_part : Values → Values
signed_part [] = []
signed_part ((k, vs) ∷ values) =
    if is_signature_key k then signed_part values else (k, vs) ∷ signed_part values

abbrev pub one : String → List String
one v = v ∷ []

module _ (n : Network) where
  unfoldable pub new_client : String → String → String → Result Client
  new_client tmn_code hash_secret payment_url =
      if is_empty (trim_space tmn_code)
      then err missing_terminal_code
      else if is_empty (trim_space hash_secret)
      then err missing_hash_secret
      else elim (n.parse_url payment_url) [
        | none ↦ err bad_payment_url
        | some u ↦
            if not (same u.scheme "https") || is_empty u.host
            then err bad_payment_url
            else ok
                (record { tmn_code = tmn_code; hash_secret = hash_secret; payment_url = u.text })
      ]

  unfoldable pub sign : Client → Values → String
  sign c values = n.hmac_hex c.hash_secret (n.encode (signed_part values))

  abbrev pub is_web_url : Url → Bool
  is_web_url u = (same u.scheme "http" || same u.scheme "https") && not (is_empty u.host)

  -- The parameters of the checkout page.
  unfoldable pub checkout_values : Client → CheckoutRequest → Url → String → ℕ → Values
  checkout_values c r return_url ip created_at =
      ("vnp_Amount", one (format_int (wrap64 (r.amount_vnd *ℤ pos 100))))
      ∷ ("vnp_Command", one "pay")
      ∷ ("vnp_CreateDate", one (n.format_time created_at))
      ∷ ("vnp_CurrCode", one "VND")
      ∷ ("vnp_ExpireDate", one (n.format_time (created_at + expires_in)))
      ∷ ("vnp_IpAddr", one ip)
      ∷ ("vnp_Locale", one "vn")
      ∷ ("vnp_OrderInfo", one r.order_info)
      ∷ ("vnp_OrderType", one "other")
      ∷ ("vnp_ReturnUrl", one return_url.text)
      ∷ ("vnp_TmnCode", one c.tmn_code)
      ∷ ("vnp_TxnRef", one r.transaction_ref)
      ∷ ("vnp_Version", one "2.1.0")
      ∷ []

  unfoldable pub with_signature : Client → Values → Values
  with_signature c values = ("vnp_SecureHash", one (sign c values)) ∷ values

  -- After the checks of the texts: the URL, with the parameters in its query.
  unfoldable pub checkout_url : Client → CheckoutRequest → Url → String → ℕ → Result String
  checkout_url c r return_url ip now =
      if ltb_ℤ (max_int64 /ℤ pos 100) r.amount_vnd
      then err amount_too_large
      else ok (
          append c.payment_url
            (append "?" (n.encode (with_signature c (checkout_values c r return_url ip now)))))

  unfoldable pub create_checkout_url : Client → ℕ → CheckoutRequest → Result String
  create_checkout_url c now r =
      if is_empty (trim_space r.transaction_ref)
      then err missing_reference
      else if leb_ℤ r.amount_vnd (pos 0)
      then err amount_not_positive
      else if is_empty (trim_space r.order_info)
      then err missing_order_info
      else elim (n.parse_url r.return_url) [
        | none ↦ err bad_return_url
        | some u ↦
            if not (is_web_url u) then err bad_return_url else elim (n.parse_ipv4 r.client_ip) [
              | none ↦ err not_ipv4
              | some ip ↦ checkout_url c r u ip now
            ]
      ]

  -- The amount of a callback: positive, and a whole number of đồng after the division by 100.
  unfoldable pub callback_amount : Values → Option ℤ
  callback_amount values = elim (parse_int64 (get_value values "vnp_Amount")) [
    | none ↦ none
    | some a ↦ if leb_ℤ a (pos 0) || not (eq_ℤ (a %ℤ pos 100) (pos 0)) then none else some a
  ]

  unfoldable pub callback_of : Values → String → ℤ → Callback
  callback_of values transaction_ref amount = record {
    transaction_ref = transaction_ref;
    provider_transaction_id = get_value values "vnp_TransactionNo";
    amount_vnd = amount /ℤ pos 100;
    success =
        same (get_value values "vnp_ResponseCode") "00"
        && same (get_value values "vnp_TransactionStatus") "00";
    response_code = get_value values "vnp_ResponseCode";
    transaction_status = get_value values "vnp_TransactionStatus";
  }

  unfoldable pub verify_ipn : Client → Values → Result Callback
  verify_ipn c values =
      if not (same (get_value values "vnp_SecureHash") (sign c values))
      then err bad_checksum
      else if not (same (get_value values "vnp_TmnCode") c.tmn_code)
      then err unexpected_terminal
      else let ref = trim_space (get_value values "vnp_TxnRef") in
        if is_empty ref then err missing_reference else elim (callback_amount values) [
          | none ↦ err bad_amount
          | some a ↦ ok (callback_of values ref a)
        ]
