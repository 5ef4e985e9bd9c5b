-- ===== src/Cart/Store.antt =====
-- What the cart service takes from outside: Redis, the client of the inventory service, the JSON
-- encoder, the clock and the source of randomness; and the state that its calls pass on.
use goshop_x.Base.{ℕ, ℤ, suc, String, Bool, List, [], ◌∷◌, ◌++◌, Result, ok, Action}
use goshop_x.Inventory.Models.{StockReservation, Availability}
use goshop_x.Cart.Models.{Cart, CartProposal, EventData}

-- The Redis commands in use, on a state that only Redis knows. A missing key is `redis.Nil`.
pub record Redis (R : Type 0) : Type 0 where
  pub get : String → R → Result String
  pub set : String → String → ℕ → R → Result (Unit {0}) × R
  pub set_nx : String → String → ℕ → R → Result Bool × R
  pub del : String → R → Result (Unit {0}) × R
  -- A pipeline of `SET` commands inside `MULTI` and `EXEC`.
  pub set_all : List (String × String × ℕ) → R → Result (Unit {0}) × R
  -- `EVAL` of a script, which runs with nothing in between.
  pub eval : (R → Result (Unit {0}) × R) → R → Result (Unit {0}) × R

pub record InventoryClient (I : Type 0) : Type 0 where
  pub reserve_stock :
      String → ℕ → String → ℤ → ℕ → String → I → Result (StockReservation × Availability) × I
  pub release_reservation : String → I → Result (StockReservation × Availability) × I

pub record Event : Type 0 where
  pub account_id : ℕ
  pub event_type : String
  pub content : EventData

pub record State (R I : Type 0) : Type 0 where
  pub redis : R
  pub inventory : I
  pub ticks : ℕ
  pub published : List Event

pub record Backend (R I : Type 0) : Type 0 where
  pub redis : Redis R
  pub inventory : InventoryClient I
  pub encode_cart : Cart → Result String
  pub decode_cart : String → Result Cart
  pub encode_proposal : CartProposal → Result String
  pub decode_proposal : String → Result CartProposal
  pub clock : ℕ → ℕ
  -- `rand.Read` of 16 bytes in hexadecimal, `uuid.NewString`, and SHA-256 cut to 25 bytes.
  pub random_hex : ℕ → Result String
  pub new_uuid : ℕ → String
  pub short_digest : String → String
  -- `config.ReservationTTL`, as a duration.
  pub ttl : ℕ

abbrev pub Call : Type 0 → Type 0 → Type 0 → Type 0
Call R I = Action (State R I)

module _ {R I : Type 0} where
  abbrev pub on_redis : {A : Type 0} → (R → Result A × R) → Call R I A
  on_redis f s = let (r, redis) = f s.redis in (r, record s { redis = redis })

  abbrev pub ask_redis : {A : Type 0} → (R → Result A) → Call R I A
  ask_redis f s = (f s.redis, s)

  abbrev pub on_inventory : {A : Type 0} → (I → Result A × I) → Call R I A
  on_inventory f s = let (r, inventory) = f s.inventory in (r, record s { inventory = inventory })

  abbrev pub time_now : Backend R I → Call R I ℕ
  time_now b s = (ok (b.clock s.ticks), record s { ticks = suc s.ticks })

  abbrev pub publish : Event → Call R I (Unit {0})
  publish e s = (ok tt, record s { published = s.published ++ (e ∷ []) })
