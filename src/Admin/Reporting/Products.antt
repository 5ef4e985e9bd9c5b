-- ===== src/Admin/Reporting/Products.antt =====
-- The sums of a dashboard for each product, against the orders one by one.
use goshop_x.Admin.Tables.{Numbers}
use goshop_x.Admin.Models.{blank_dashboard, PaymentFact, ProductMetric, OrderFact}
use goshop_x.Admin.Reporting.{
  add_order, Tally, ranks_before, build_dashboard, add_orders, sort_metrics, insert_metric, grown,
  is_counted, fresh_metric, add_to_product,
}
use goshop_x.Base.{
  Bool, ltb_ℤ, pos, ◌≤ℤ◌, ℤ, ◌∙◌, refl, same_common, arith, inr, eq_iff, ◌&&◌, inl, ap, Bool-cases,
  true, false, if◌then◌else◌, [], ◌≡◌, All, ◌∷◌, same, List, String, ℕ,
}

-- The sums of one product over the orders, in their order.
abbrev pub sum_facts : ℕ → ℕ → String → List OrderFact → ProductMetric → ProductMetric
sum_facts from to id [] m = m
sum_facts from to id (o ∷ os) m =
    sum_facts from to id os (if is_counted from to o && same o.product_id id then grown o m else m)

-- What a list of products says of one of them.
abbrev pub metric_of : String → List ProductMetric → ProductMetric
metric_of id [] = fresh_metric id
metric_of id (m ∷ ms) = if same m.product_id id then m else metric_of id ms

abbrev IsAbsent : String → List ProductMetric → Type 0
IsAbsent id = All (λ m. same m.product_id id ≡ false)

abbrev IsDistinct : List ProductMetric → Type 0
IsDistinct [] = Unit
IsDistinct (m ∷ ms) = IsAbsent m.product_id ms × IsDistinct ms

same_trans : (x y z : String) → same x y ≡ true → same x z ≡ same y z
same_trans x y z h = ap (λ t. same t z) ((eq_iff x y).0 h)

metric_of-add :
    (id : String) (o : OrderFact) (ms : List ProductMetric)
    → metric_of id (add_to_product o ms)
      ≡ (if same o.product_id id then grown o (metric_of id ms) else metric_of id ms)
unfolding add_to_product
metric_of-add id o [] = elim (Bool-cases (same o.product_id id)) [
  | inl mine ↦ let eq : o.product_id ≡ id = (eq_iff o.product_id id).0 mine in rw (mine, eq) refl
  | inr other ↦ rw other refl
]
metric_of-add id o (m ∷ ms) = elim (Bool-cases (same m.product_id o.product_id)) [
  | inl hit ↦
      let agree = same_trans m.product_id o.product_id id hit in
      elim (Bool-cases (same o.product_id id)) [
        | inl mine ↦ ground (arith, hit, agree, mine)
        | inr other ↦ ground (arith, hit, agree, other)
      ]
  | inr miss ↦
      let rest = metric_of-add id o ms in
      elim (Bool-cases (same m.product_id id)) [
        | inl at_m ↦ elim (Bool-cases (same o.product_id id)) [
          | inl mine ↦ ground (
            arith,
            miss,
            same_common m.product_id o.product_id id at_m mine,
            eq_iff m.product_id o.product_id,
            eq_iff o.product_id m.product_id,
          )
          | inr other ↦ ground (arith, miss, at_m, other)
        ]
        | inr past ↦ ground (arith, miss, past, rest)
      ]
]

IsAbsent-add :
    (id : String) (o : OrderFact) (ms : List ProductMetric)
    → IsAbsent id ms
    → same o.product_id id ≡ false
    → IsAbsent id (add_to_product o ms)
unfolding add_to_product
IsAbsent-add id o [] _ other = (other, tt)
IsAbsent-add id o (m ∷ ms) (here, there) other =
    elim (Bool-cases (same m.product_id o.product_id)) [
      | inl hit ↦ rw hit (here, there)
      | inr miss ↦ rw miss (here, IsAbsent-add id o ms there other)
    ]

add_to_product-IsDistinct :
    (o : OrderFact) (ms : List ProductMetric) → IsDistinct ms → IsDistinct (add_to_product o ms)
unfolding add_to_product
add_to_product-IsDistinct o [] _ = (tt, tt)
add_to_product-IsDistinct o (m ∷ ms) (fresh, rest) =
    elim (Bool-cases (same m.product_id o.product_id)) [
      | inl hit ↦ rw hit (fresh, rest)
      | inr miss ↦
          let other : same o.product_id m.product_id ≡ false =
            ground
              (arith, miss, eq_iff o.product_id m.product_id, eq_iff m.product_id o.product_id) in
          rw miss (IsAbsent-add m.product_id o ms fresh other, add_to_product-IsDistinct o ms rest)
    ]

IsAbsent-insert :
    (id : String) (m : ProductMetric) (ms : List ProductMetric)
    → same m.product_id id ≡ false
    → IsAbsent id ms
    → IsAbsent id (insert_metric m ms)
unfolding insert_metric
IsAbsent-insert id m [] other _ = (other, tt)
IsAbsent-insert id m (x ∷ xs) other (here, there) = elim (Bool-cases (ranks_before m x)) [
  | inl first ↦ rw first (other, (here, there))
  | inr later ↦ rw later (here, IsAbsent-insert id m xs other there)
]

metric_of-insert :
    (id : String) (m : ProductMetric) (ms : List ProductMetric)
    → IsAbsent m.product_id ms
    → metric_of id (insert_metric m ms) ≡ (if same m.product_id id then m else metric_of id ms)
unfolding insert_metric
metric_of-insert id m [] _ = refl
metric_of-insert id m (x ∷ xs) (other, absent) = elim (Bool-cases (ranks_before m x)) [
  | inl first ↦ rw first refl
  | inr later ↦
      let rest = metric_of-insert id m xs absent in
      elim (Bool-cases (same x.product_id id)) [
        | inl at_x ↦ elim (Bool-cases (same m.product_id id)) [
          | inl mine ↦ ground (
            arith,
            other,
            same_common x.product_id m.product_id id at_x mine,
            eq_iff x.product_id m.product_id,
            eq_iff m.product_id x.product_id,
          )
          | inr past ↦ ground (arith, later, at_x, past)
        ]
        | inr miss ↦ ground (arith, later, miss, rest)
      ]
]

IsAbsent-sort :
    (id : String) (ms : List ProductMetric) → IsAbsent id ms → IsAbsent id (sort_metrics ms)
unfolding sort_metrics
IsAbsent-sort id [] _ = tt
IsAbsent-sort id (m ∷ ms) (here, there) =
    IsAbsent-insert id m (sort_metrics ms) here (IsAbsent-sort id ms there)

metric_of-sort :
    (id : String) (ms : List ProductMetric)
    → IsDistinct ms
    → metric_of id (sort_metrics ms) ≡ metric_of id ms
unfolding sort_metrics
metric_of-sort id [] _ = refl
metric_of-sort id (m ∷ ms) (fresh, rest) =
    let inserted = metric_of-insert id m (sort_metrics ms) (IsAbsent-sort m.product_id ms fresh) in
    let sorted = metric_of-sort id ms rest in
    inserted ∙ ap (λ x. if same m.product_id id then m else x) sorted

add_orders_lem :
    {F : Type 0} (from to : ℕ) (id : String) (os : List OrderFact) (t : Tally F)
    → IsDistinct t.products
    → IsDistinct (add_orders from to os t).products
      × (metric_of id (add_orders from to os t).products
          ≡ sum_facts from to id os (metric_of id t.products))
unfolding add_orders
add_orders_lem from to id [] t distinct = (distinct, refl)
add_orders_lem {F} from to id (o ∷ os) t distinct =
    go (λ u still. add_orders_lem from to id os u still) (is_counted from to o)
  where
    go :
        ((u : Tally F)
          → IsDistinct u.products
          → IsDistinct (add_orders from to os u).products
            × (metric_of id (add_orders from to os u).products
                ≡ sum_facts from to id os (metric_of id u.products)))
        → (c : Bool)
        → IsDistinct (add_orders from to os (if c then add_order o t else t)).products
          × (metric_of id (add_orders from to os (if c then add_order o t else t)).products
              ≡ sum_facts from to id os (
                  if c && same o.product_id id
                  then grown o (metric_of id t.products)
                  else metric_of id t.products))
    go rest true =
        let (still, sums) =
          rest (add_order o t) (add_to_product-IsDistinct o t.products distinct) in
        (still, sums ∙ ap (sum_facts from to id os) (metric_of-add id o t.products))
    go rest false = rest t distinct

-- What a dashboard with no limit on its products says of one of them.
pub metric_of-build_dashboard :
    {F : Type 0} (n : Numbers F) (from to : ℕ) (orders : List OrderFact)
    (payments : List PaymentFact) (limit : ℤ) (id : String)
    → limit ≤ℤ pos 0
    → metric_of id (build_dashboard n from to orders payments limit).top_products
      ≡ sum_facts from to id orders (fresh_metric id)
unfolding build_dashboard
metric_of-build_dashboard n from to orders payments limit id unlimited =
    let start : Tally _ = record {
      result = blank_dashboard n.zero_float from to;
      seen_orders = [];
      products = [];
    } in
    let (distinct, sums) = add_orders_lem from to id orders start tt in
    let whole : ltb_ℤ (pos 0) limit ≡ false = ground (arith, unlimited) in
    rw whole (metric_of-sort id (add_orders from to orders start).products distinct ∙ sums)
