-- ===== src/Base/Mapper.antt =====
-- What the object-relational mapper does with one table. The operations are parameters, which may
-- fail at any call; `Laws` states what is documented of a call that succeeds.
use Prim.Native.Nat.{ℕ, zero, suc}
use mathlib.Core.Path.{◌≡◌, refl}
use mathlib.Core.Bool.{Bool, true, false, not}
use mathlib.Core.Option.{Option}
use mathlib.Core.Logic.{◌≢◌, ◌⊎◌}
use mathlib.Core.List.{List, [], ◌∷◌, ◌++◌, map}
use native.Mathlib.Omega.{arith}
use mathlib.Core.Logic.{inl, inr}
use goshop_x.Base.Tests.{Bool-cases, if◌then◌else◌}
use goshop_x.Base.Lists.{keep, tally, All, Holds}
use goshop_x.Base.Outcome.{Result, ok, err, record_not_found}
use goshop_x.Base.Int.{ℤ, pos, ◌+ℤ◌}

-- `Where`, `Order` and `Offset` with `Limit` of a query; without a page there is no limit.
pub record Query (R : Type 0) : Type 0 where
  pub matching : R → Bool
  pub precedes : R → R → Bool
  pub page : Option (ℕ × ℕ)

pub record Orm (R : Type 0) : Type 0 where
  -- `First` under a condition.
  pub first : (R → Bool) → List R → Result R
  pub find : Query R → List R → Result (List R)
  -- `Create`, which fills in the generated columns; and `Create` under `OnConflict`, with the number
  -- of rows that it wrote.
  pub create : R → List R → Result (R × List R)
  pub create_unless : R → List R → Result (ℕ × List R)
  pub create_or_assign : (R → R) → R → List R → Result (List R)
  pub save : R → List R → Result (List R)
  pub updates : (R → Bool) → (R → R) → List R → Result (ℕ × List R)
  pub delete : (R → Bool) → List R → Result (List R)
  pub count : (R → Bool) → List R → Result ℤ
  pub sum : (R → Bool) → (R → ℤ) → List R → Result ℤ

module _ {R : Type 0} where
  -- The sum of a column over the rows that match.
  abbrev pub sum_of : (R → Bool) → (R → ℤ) → List R → ℤ
  sum_of p f [] = pos 0
  sum_of p f (r ∷ rs) = (if p r then f r else pos 0) +ℤ sum_of p f rs

  abbrev pub replace : (R → R → Bool) → R → List R → List R
  replace same r = map (λ x. if same x r then r else x)

  -- A row after a replacement is the new one, or an old one with another key.
  pub Holds-replace :
      (same : R → R → Bool) (r : R) (rows : List R) (y : R)
      → Holds (replace same r rows) y
      → (y ≡ r) ⊎ (Holds rows y × (same y r ≡ false))
  Holds-replace same r [] y (i, e) = cc
  Holds-replace same r (x ∷ xs) y (zero, e) = elim (Bool-cases (same x r)) [
    | inl hit ↦ inl (ground arith)
    | inr miss ↦ let eq : x ≡ y = ground arith in inr ((zero, rw eq refl), rw eq at miss)
  ]
  Holds-replace same r (x ∷ xs) y (suc i, e) = elim (Holds-replace same r xs y (i, e)) [
    | inl new ↦ inl new
    | inr ((j, at), other) ↦ inr ((suc j, at), other)
  ]

  -- A row of a table that was rewritten comes from a row that was there.
  pub Holds-map :
      (f : R → R) (rows : List R) (y : R)
      → Holds (map f rows) y
      → (x : R) × Holds rows x × (y ≡ f x)
  Holds-map f [] y (i, e) = cc
  Holds-map f (x ∷ xs) y (zero, e) = (x, (0, refl), ground arith)
  Holds-map f (x ∷ xs) y (suc i, e) =
      let (z, (j, at_j), eq) = Holds-map f xs y (i, e) in (z, (suc j, at_j), eq)

  pub map-map_agrees :
      {B : Type 0} (g : R → B) (f : R → R) (rows : List R)
      → ((x : R) → g (f x) ≡ g x)
      → map g (map f rows) ≡ map g rows
  map-map_agrees g f [] h = refl
  map-map_agrees g f (x ∷ xs) h = rw (h x, map-map_agrees g f xs h) refl

  pub tally_pos :
      (p : R → Bool) (rows : List R) (x : R) → Holds rows x → p x ≡ true → tally p rows ≢ 0
  tally_pos p [] x (i, e) h = cc
  tally_pos p (y ∷ ys) x (zero, e) h = let hit : p y ≡ true = ground arith in rw hit (omega arith)
  tally_pos p (y ∷ ys) x (suc i, e) h =
      let more : tally p ys ≢ 0 = tally_pos p ys x (i, e) h in omega arith

  -- `same` compares primary keys, `clash` the columns with a unique index too, and `Filled r r'`
  -- says that r' is r with its generated columns.
  pub record Laws (o : Orm R) (same clash : R → R → Bool) (Filled : R → R → Type 0) : Type 0 where
    pub first_hit :
        (p : R → Bool) (rows : List R) (r : R) → o.first p rows ≡ ok r → (p r ≡ true) × Holds rows r
    pub first_miss :
        (p : R → Bool) (rows : List R)
        → o.first p rows ≡ err record_not_found
        → All (λ r. p r ≡ false) rows
    pub find_rows :
        (q : Query R) (rows out : List R) (r : R)
        → o.find q rows ≡ ok out
        → Holds out r
        → Holds rows r × (q.matching r ≡ true)
    pub create_row :
        (r r' : R) (rows rows' : List R)
        → o.create r rows ≡ ok (r', rows')
        → (rows' ≡ rows ++ (r' ∷ [])) × Filled r r' × All (λ x. clash x r' ≡ false) rows
    pub create_unless_row :
        (n : ℕ) (r : R) (rows rows' : List R)
        → o.create_unless r rows ≡ ok (n, rows')
        → ((n ≡ 1)
            × All (λ x. clash x r ≡ false) rows
            × ((r' : R) × Filled r r' × (rows' ≡ rows ++ (r' ∷ []))))
          ⊎ ((n ≡ 0) × (rows' ≡ rows) × (tally (λ x. clash x r) rows ≢ 0))
    pub save_row :
        (r : R) (rows rows' : List R)
        → o.save r rows ≡ ok rows'
        → tally (λ x. same x r) rows ≢ 0
        → rows' ≡ replace same r rows
    pub updates_rows :
        (p : R → Bool) (f : R → R) (n : ℕ) (rows rows' : List R)
        → o.updates p f rows ≡ ok (n, rows')
        → (rows' ≡ map (λ x. if p x then f x else x) rows) × (n ≡ tally p rows)
    pub delete_rows :
        (p : R → Bool) (rows rows' : List R)
        → o.delete p rows ≡ ok rows'
        → rows' ≡ keep (λ x. not (p x)) rows
    pub count_rows :
        (p : R → Bool) (rows : List R) (n : ℤ) → o.count p rows ≡ ok n → n ≡ pos (tally p rows)
    pub sum_rows :
        (p : R → Bool) (f : R → ℤ) (rows : List R) (n : ℤ)
        → o.sum p f rows ≡ ok n
        → n ≡ sum_of p f rows

-- A statement on one table, as a statement on the tables of which it is one.
module _ {T R : Type 0} (get : T → List R) (put : List R → T → T) where
  abbrev pub query_on : {A : Type 0} → (List R → Result A) → T → Result A
  query_on f t = f (get t)

  abbrev pub change_on : {A : Type 0} → (List R → Result (A × List R)) → T → Result (A × T)
  change_on f t = elim (f (get t)) [ ok (a, rows) ↦ ok (a, put rows t) | err e ↦ err e ]

  -- For a statement that returns nothing but the new rows.
  abbrev pub write_on : (List R → Result (List R)) → T → Result (Unit {0} × T)
  write_on f t = elim (f (get t)) [ ok rows ↦ ok (tt, put rows t) | err e ↦ err e ]
