-- ===== src/Payment/Gateway/Authentic.antt =====
-- Which callbacks `VerifyIPN` lets through.
use goshop_x.Base.{
  [], ◌∷◌, List, keep, not, sym, Bool, ap, Fault, bad_amount, Bool-cases, ℕ, ℤ, pos, negsuc, String,
  ◌≡◌, refl, ◌≤◌, ◌*◌, ◌/◌, ◌%◌, true, false, ◌&&◌, Option, some, none, ok, err, arith, same,
  is_empty, trim_space, parse_int64, pos-div, pos-mod, ◌/ℤ◌, ◌%ℤ◌, eq_ℤ, leb_ℤ, inl, inr,
}
use goshop_x.Payment.Models.{Callback}
use goshop_x.Payment.Gateway.{
  signed_part, Values, Network, Client, get_value, sign, verify_ipn, callback_amount, callback_of,
}

-- An amount that passes is 100 times a positive number.
amount_shape :
    (a : ℤ)
    → leb_ℤ a (pos 0) ≡ false
    → eq_ℤ (a %ℤ pos 100) (pos 0) ≡ true
    → (n : ℕ) × (a ≡ pos (n * 100)) × (1 ≤ n) × (a /ℤ pos 100 ≡ pos n)
amount_shape (negsuc k) h d = ground arith
amount_shape (pos k) h d =
    let whole : k % 100 ≡ 0 = ground (arith, pos-mod k 100) in
    (k / 100, ground arith, ground arith, pos-div k 100)

callback_amount_lem :
    (n : Network) (values : Values) (a : ℤ)
    → callback_amount n values ≡ some a
    → (parse_int64 (get_value values "vnp_Amount") ≡ some a)
      × (leb_ℤ a (pos 0) ≡ false)
      × (eq_ℤ (a %ℤ pos 100) (pos 0) ≡ true)
unfolding callback_amount
callback_amount_lem n values a e = ground arith

amount_taken :
    (n : Network) (values : Values) (r : Option ℤ) (ref : String) (cb : Callback)
    → (elim r [ none ↦ err bad_amount | some a ↦ ok (callback_of n values ref a) ]) ≡ ok cb
    → (a : ℤ) × (r ≡ some a) × (cb ≡ callback_of n values ref a)
amount_taken n values none ref cb e = cc
amount_taken n values (some a) ref cb e = (a, refl, ground arith)

abbrev pub is_signed : String × List String → Bool
is_signed (k, _) = not (same k "vnp_SecureHash") && not (same k "vnp_SecureHashType")

signed_part_lem : (values : Values) → signed_part values ≡ keep is_signed values
unfolding signed_part
signed_part_lem [] = refl
signed_part_lem ((k, vs) ∷ values) =
    let rest = signed_part_lem values in
    elim (Bool-cases (same k "vnp_SecureHash")) [
      | inl hash ↦ rw (hash, rest) refl
      | inr no_hash ↦ elim (Bool-cases (same k "vnp_SecureHashType")) [
        | inl typed ↦ rw (no_hash, typed, rest) refl
        | inr other ↦ rw (no_hash, other, rest) refl
      ]
    ]

sign_lem :
    (n : Network) (c : Client) (values : Values)
    → sign n c values ≡ n.hmac_hex c.hash_secret (n.encode (keep is_signed values))
unfolding sign
sign_lem n c values = ap (λ vs. n.hmac_hex c.hash_secret (n.encode vs)) (signed_part_lem values)

-- A callback that is let through carries as `vnp_SecureHash` the digest, under the shop's secret, of all
-- its parameters but `vnp_SecureHash` and `vnp_SecureHashType`; it carries the shop's terminal; its
-- reference is `vnp_TxnRef` without the space around it, and not empty; and its amount is a positive
-- whole number of đồng, a hundredth of `vnp_Amount`. It reports success exactly when both of its codes
-- are `00`.
pub verify_ipn_authentic :
    (n : Network) (c : Client) (values : Values) (cb : Callback)
    → verify_ipn n c values ≡ ok cb
    → (same
          (get_value values "vnp_SecureHash")
          (n.hmac_hex c.hash_secret (n.encode (keep is_signed values)))
        ≡ true)
      × (same (get_value values "vnp_TmnCode") c.tmn_code ≡ true)
      × (cb.transaction_ref ≡ trim_space (get_value values "vnp_TxnRef"))
      × (is_empty cb.transaction_ref ≡ false)
      × ((k : ℕ) × (1 ≤ k)
          × (cb.amount_vnd ≡ pos k)
          × (parse_int64 (get_value values "vnp_Amount") ≡ some (pos (k * 100))))
      × (cb.success ≡ (
          same (get_value values "vnp_ResponseCode") "00"
          && same (get_value values "vnp_TransactionStatus") "00"))
unfolding verify_ipn
verify_ipn_authentic n c values cb e =
    elim (Bool-cases (same (get_value values "vnp_SecureHash") (sign n c values))) [
      | inr bad ↦ absurd (refused (rw bad at e))
      | inl signed ↦ elim (Bool-cases (same (get_value values "vnp_TmnCode") c.tmn_code)) [
        | inr bad ↦ absurd (refused (rw (signed, bad) at e))
        | inl terminal ↦ elim (Bool-cases (is_empty (trim_space (get_value values "vnp_TxnRef")))) [
          | inl bad ↦ absurd (refused (rw (signed, terminal, bad) at e))
          | inr named ↦
              let (a, taken, eq) =
                amount_taken n values (callback_amount n values)
                  (trim_space (get_value values "vnp_TxnRef")) cb
                  (rw (signed, terminal, named) at e) in
              let (parsed, positive, whole) = callback_amount_lem n values a taken in
              let (k, shape, least, hundredth) = amount_shape a positive whole in
              unfold callback_of in
              (
                rw (sym (sign_lem n c values)) signed,
                terminal,
                rw eq refl,
                rw eq named,
                (k, least, rw eq hundredth, rw parsed (ap some shape)),
                rw eq refl,
              )
        ]
      ]
    ]
  where
    refused : {f : Fault} → err f ≡ ok cb → ⊥
    refused h = cc
