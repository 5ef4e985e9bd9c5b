-- ===== src/Product/Sample/Ends.antt =====
-- The import ends, whatever the remote service answers.
use goshop_x.Product.SampleData.{SampleProduct, SamplePage, SampleClient}
use goshop_x.Product.Models.{Event}
use goshop_x.Base.{
  zero, pos, wrap64, subst, suc, Fault, some, Option, err, ℤ, Result, refl, [], ap, ◌∙◌,
  Result-cases, leb, inl, ◌||◌, inr, none, ◌==◌, ◌∷◌, Bool-cases, arith, Option-cases, ◌≢◌, ◌^◌,
  length, ◌<◌, ◌≤◌, pos_part, ◌+◌, ok, ◌≡◌, List, String, ℕ, Session,
}
use goshop_x.Product.Sample.{
  page_limit, seed, seed_loop, next_page, list_page, priced, expected_count, ended, Progress,
  item_fault, page_fault, going, Import, import_page, finish_page, import_items, import_item,
}
use goshop_x.Product.Tables.{put_product_with_id, Tables, Backend}

module _ {F : Type 0} (b : Backend F) (c : SampleClient F) where
  abbrev pub Shop : Type 0
  Shop = Session (Tables F) (Event F)

  -- No page states a total above `m`.
  abbrev pub IsBounded : ℕ → Type 0
  IsBounded m =
      (i : ℕ) (path : String) (page : SamplePage F)
      → c.fetch i path ≡ ok page
      → pos_part page.total ≤ m

  import_item_going :
      (item : SampleProduct F) (st st' : Import) (s t : Shop)
      → st.imported + 1 < 2 ^ 64
      → import_item b c item st s ≡ (going st', t)
      → (st'.imported ≡ st.imported + 1) × (st'.snapshot_total ≡ st.snapshot_total)
  unfolding import_item
  import_item_going item st st' s t room e = elim (Option-cases (item_fault b c item st)) [
    | inr (x, bad) ↦ ground (arith, bad, e)
    | inl good ↦ elim (Result-cases (put_product_with_id b (priced b c st item) s).0) [
      | inr (x, k) ↦ ground (arith, good, k, e)
      | inl (_, k) ↦ (ground (arith, good, k, e, room), ground (arith, good, k, e))
    ]
  ]

  import_items_going :
      (items : List (SampleProduct F)) (st st' : Import) (s t : Shop)
      → st.imported + length items < 2 ^ 64
      → import_items b c items st s ≡ (going st', t)
      → (st'.imported ≡ st.imported + length items) × (st'.snapshot_total ≡ st.snapshot_total)
  unfolding import_items
  import_items_going [] st st' s t room e = (ground (arith, e), ground (arith, e))
  import_items_going (item ∷ items) st st' s t room e =
      go (λ u s1 more done. import_items_going items u st' s1 t more done)
        (import_item b c item st s) refl
    where
      go :
          ((u : Import) (s1 : Shop)
            → u.imported + length items < 2 ^ 64
            → import_items b c items u s1 ≡ (going st', t)
            → (st'.imported ≡ u.imported + length items) × (st'.snapshot_total ≡ u.snapshot_total))
          → (p : Progress × Shop) → import_item b c item st s ≡ p
          → (st'.imported ≡ st.imported + length (item ∷ items))
            × (st'.snapshot_total ≡ st.snapshot_total)
      go rest (ended n f, s1) k = ground (arith, k, e)
      go rest (going u, s1) k =
          let (counted, same_total) = import_item_going item st u s s1 (omega (arith, room)) k in
          let (all, kept) = rest u s1 (omega (arith, room, counted)) (ground (arith, k, e)) in
          (omega (arith, all, counted), kept ∙ same_total)

  finish_page_going :
      (limit : ℕ) (page : SamplePage F) (st st' : Import) (s t : Shop)
      → finish_page b c limit page st s ≡ (going st', t)
      → (st'.imported ≡ st.imported)
        × (st.imported < pos_part st.snapshot_total)
        × (length page.products ≢ 0)
  unfolding finish_page
  finish_page_going limit page st st' s t e =
      elim (Bool-cases
        (length page.products == 0 || leb (expected_count limit st.snapshot_total) st.imported)) [
          | inl last ↦ elim (Bool-cases (st.imported == expected_count limit st.snapshot_total)) [
            | inl full ↦ ground (arith, last, full, e)
            | inr short ↦ ground (arith, last, short, e)
          ]
          | inr on ↦ (
            ground (arith, on, e),
            ground (arith, on),
            λ none_left. ground (arith, on, none_left),
          )
        ]

  import_page_going :
      (m limit : ℕ) (page : SamplePage F) (st st' : Import) (s t : Shop)
      → pos_part page.total ≤ m
      → m < 2 ^ 63
      → st.imported ≤ m
      → import_page b c limit page st s ≡ (going st', t)
      → (st.imported < st'.imported) × (st'.imported ≤ m)
  unfolding import_page
  import_page_going m limit page st st' s t small room within e =
      elim (Option-cases (page_fault b c limit st page)) [
        | inr (x, bad) ↦ ground (arith, bad, e)
        | inl good ↦
            go good (import_items b c page.products (record st { snapshot_total = page.total }) s)
              refl
      ]
    where
      go :
          page_fault b c limit st page ≡ none
          → (p : Progress × Shop)
          → import_items b c page.products (record st { snapshot_total = page.total }) s ≡ p
          → (st.imported < st'.imported) × (st'.imported ≤ m)
      go good (ended n f, s1) k = ground (arith, good, k, e)
      go good (going u, s1) k =
          let short : length page.products ≤ 100 = ground (arith, good) in
          let (counted, same_total) =
            import_items_going page.products (record st { snapshot_total = page.total }) u s s1
              (omega (arith, short, room, within)) k in
          let finished : finish_page b c limit page u s1 ≡ (going st', t) =
            ground (arith, good, k, e) in
          let (kept, below, some_left) = finish_page_going limit page u st' s1 t finished in
          let total : pos_part u.snapshot_total ≡ pos_part page.total = ap pos_part same_total in
          (omega (arith, kept, counted, some_left), omega (arith, kept, below, total, small))

  list_page_lem :
      (skip limit : ℕ) (s : Shop) (page : SamplePage F) (t : Shop)
      → list_page b c skip limit "" s ≡ (ok page, t)
      → (path : String) × (c.fetch s.ticks path ≡ ok page)
  unfolding list_page
  list_page_lem skip limit s page t e = (_, ap (λ (p : Result (SamplePage F) × Shop). p.0) e)

  next_page_going :
      (m limit : ℕ) (st st' : Import) (s t : Shop)
      → IsBounded m
      → m < 2 ^ 63
      → st.imported ≤ m
      → next_page b c limit st s ≡ (going st', t)
      → (st.imported < st'.imported) × (st'.imported ≤ m)
  unfolding next_page
  next_page_going m limit st st' s t bounded room within e =
      elim (Bool-cases (page_limit limit st.imported == 0)) [
        | inl full ↦ ground (arith, full, e)
        | inr open_page ↦
            go (list_page b c st.skip (page_limit limit st.imported) "" s) refl
              (ground (arith, open_page, e))
      ]
    where
      onward : Result (SamplePage F) × Shop → Progress × Shop
      onward p = elim (p.0) [
        | err x ↦ (ended st.imported (some x), p.1)
        | ok page ↦ import_page b c limit page st p.1
      ]

      go :
          (p : Result (SamplePage F) × Shop)
          → list_page b c st.skip (page_limit limit st.imported) "" s ≡ p
          → onward (list_page b c st.skip (page_limit limit st.imported) "" s) ≡ (going st', t)
          → (st.imported < st'.imported) × (st'.imported ≤ m)
      go (err x, s1) k h =
          let stuck : onward (err x, s1) ≡ (going st', t) =
            subst (λ p. onward p ≡ (going st', t)) k h in
          ground (arith, stuck)
      go (ok page, s1) k h =
          let paged : import_page b c limit page st s1 ≡ (going st', t) =
            subst (λ p. onward p ≡ (going st', t)) k h in
          let (path, fetched) = list_page_lem st.skip (page_limit limit st.imported) s page s1 k in
          import_page_going m limit page st st' s1 t (bounded s.ticks path page fetched) room within
            paged

  -- The import counts at least one product more with every page that does not end it.
  pub seed_loop-returns :
      (m limit n : ℕ) (st : Import) (s : Shop)
      → IsBounded m
      → m < 2 ^ 63
      → st.imported ≤ m
      → m < st.imported + n
      → (r : (ℤ × Option Fault) × Shop) × (seed_loop b c n limit st s ≡ some r)
  unfolding seed_loop
  seed_loop-returns m limit zero st s bounded room within fuel = ground (arith, within, fuel)
  seed_loop-returns m limit (suc n) st s bounded room within fuel =
      go (λ u t more small. seed_loop-returns m limit n u t bounded room small more)
        (next_page b c limit st s) refl
    where
      onward : Progress × Shop → Option ((ℤ × Option Fault) × Shop)
      onward p = elim (p.0) [
        | ended k e ↦ some ((wrap64 (pos k), e), p.1)
        | going u ↦ seed_loop b c n limit u p.1
      ]

      go :
          ((u : Import) (t : Shop)
            → m < u.imported + n
            → u.imported ≤ m
            → (r : (ℤ × Option Fault) × Shop) × (seed_loop b c n limit u t ≡ some r))
          → (p : Progress × Shop) → next_page b c limit st s ≡ p
          → (r : (ℤ × Option Fault) × Shop) × (onward (next_page b c limit st s) ≡ some r)
      go rest (ended k e, t) eq = (((wrap64 (pos k), e), t), ap onward eq)
      go rest (going u, t) eq =
          let (grown, small) = next_page_going m limit st u s t bounded room within eq in
          let (r, done) = rest u t (omega (arith, fuel, grown)) small in (r, ap onward eq ∙ done)

  -- The import ends: where no page states a total above m, below 2^63, it returns a count within m + 1
  -- pages, whatever the pages hold, whatever the index answers and whatever limit was asked for.
  pub seed-returns :
      (m limit fuel : ℕ) (s : Shop)
      → IsBounded m
      → m < 2 ^ 63
      → m < fuel
      → (r : (ℤ × Option Fault) × Shop) × (seed b c fuel limit s ≡ some r)
  unfolding seed
  seed-returns m limit fuel s bounded room enough =
      seed_loop-returns m limit fuel _ _ bounded room (omega arith) (omega (arith, enough))
