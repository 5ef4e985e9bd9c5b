-- ===== src/Cart/Repository.antt =====
-- cart/internal/repository.go.
use goshop_x.Base.{
  ℕ, String, Bool, [], ◌∷◌, Result, ok, err, redis_nil, cart_not_found, lift, ◌>>=◌, same, append,
  decimal, if◌then◌else◌,
}
use goshop_x.Cart.Models.{Cart, CartProposal}
use goshop_x.Cart.Store.{Backend, Call, on_redis, ask_redis}

unfoldable pub cart_key : ℕ → String
cart_key account = append "cart:" (decimal account)

unfoldable pub cart_lock_key : ℕ → String
cart_lock_key account = append "cart-lock:" (decimal account)

unfoldable pub cart_proposal_key : ℕ → String → String
cart_proposal_key account suffix =
    append "cart-proposal:" (append (decimal account) (append ":" suffix))

-- `redis.Nil` becomes `ErrCartNotFound`.
abbrev pub or_not_found : Result String → Result String
or_not_found (ok v) = ok v
or_not_found (err redis_nil) = err cart_not_found
or_not_found (err e) = err e

module _ {R I : Type 0} (b : Backend R I) where
  open b use {redis, encode_cart, decode_cart, encode_proposal, decode_proposal}

  unfoldable pub acquire_cart_lock : ℕ → String → ℕ → Call R I Bool
  acquire_cart_lock account token ttl = on_redis (redis.set_nx (cart_lock_key account) token ttl)

  -- The script: the key is deleted only if it still holds the token.
  abbrev pub unlock_script : String → String → R → Result (Unit {0}) × R
  unlock_script key token r = elim (redis.get key r) [
    | ok held ↦ if same held token then redis.del key r else (ok tt, r)
    | err _ ↦ (ok tt, r)
  ]

  unfoldable pub release_cart_lock : ℕ → String → Call R I (Unit {0})
  release_cart_lock account token =
      on_redis (redis.eval (unlock_script (cart_lock_key account) token))

  unfoldable pub read_cart : ℕ → Call R I Cart
  read_cart account = do
    payload ← ask_redis (λ r. or_not_found (redis.get (cart_key account) r))
    lift (decode_cart payload)

  unfoldable pub save_cart : Cart → ℕ → Call R I (Unit {0})
  save_cart cart ttl = do
    body ← lift (encode_cart cart)
    on_redis (redis.set (cart_key cart.account_id) body ttl)

  unfoldable pub delete_cart : ℕ → Call R I (Unit {0})
  delete_cart account = on_redis (redis.del (cart_key account))

  unfoldable pub read_proposal : String → Call R I CartProposal
  read_proposal key = do
    value ← ask_redis (λ r. or_not_found (redis.get key r))
    lift (decode_proposal value)

  unfoldable pub get_cart_proposal : ℕ → String → Call R I CartProposal
  get_cart_proposal account key = read_proposal (cart_proposal_key account (append "key:" key))

  unfoldable pub get_cart_proposal_by_id : ℕ → String → Call R I CartProposal
  get_cart_proposal_by_id account id = read_proposal (cart_proposal_key account (append "id:" id))

  unfoldable pub save_cart_proposal : CartProposal → ℕ → Call R I (Unit {0})
  save_cart_proposal p ttl = do
    value ← lift (encode_proposal p)
    on_redis (
        redis.set_all (
          (cart_proposal_key p.account_id (append "key:" p.idempotency_key), value, ttl)
          ∷ (cart_proposal_key p.account_id (append "id:" p.id), value, ttl)
          ∷ []))

  unfoldable pub save_cart_and_proposal : Cart → CartProposal → ℕ → Call R I (Unit {0})
  save_cart_and_proposal cart p ttl = do
    cart_value ← lift (encode_cart cart)
    value ← lift (encode_proposal p)
    on_redis (
        redis.set_all (
          (cart_key cart.account_id, cart_value, ttl)
          ∷ (cart_proposal_key p.account_id (append "key:" p.idempotency_key), value, ttl)
          ∷ (cart_proposal_key p.account_id (append "id:" p.id), value, ttl)
          ∷ []))
