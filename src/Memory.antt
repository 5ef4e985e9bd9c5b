-- ===== src/Memory.antt =====
-- Tables in memory: an instance of the mapper's operations with which its laws hold.
use goshop_x.Base.{
  ℕ, zero, suc, pos, ◌≡◌, refl, sym, ◌≢◌, ◌⊎◌, inl, inr, Bool, true, false, not, List, [], ◌∷◌,
  ◌++◌, map, Result, ok, err, external, record_not_found, arith, Bool-cases, if◌then◌else◌, ◌==◌,
  keep, tally, All, Holds, Orm, Laws, sum_of, replace,
}

module _ {R : Type 0} where
  abbrev pub first_row : (R → Bool) → List R → Result R
  first_row p [] = err record_not_found
  first_row p (r ∷ rs) = if p r then ok r else first_row p rs

  abbrev pub add_row : (R → R → Bool) → R → List R → Result (R × List R)
  add_row clash r rows =
      if tally (λ x. clash x r) rows == 0 then ok (r, rows ++ (r ∷ [])) else err (external 1062)

  abbrev pub add_unless : (R → R → Bool) → (List R → R → R) → R → List R → Result (ℕ × List R)
  add_unless clash fill r rows =
      if tally (λ x. clash x r) rows == 0 then ok (1, rows ++ (fill rows r ∷ [])) else ok (0, rows)

  abbrev pub save_or_add : (R → R → Bool) → R → List R → Result (List R)
  save_or_add same r rows =
      if tally (λ x. same x r) rows == 0 then ok (rows ++ (r ∷ [])) else ok (replace same r rows)

  abbrev pub assign_or_add : (R → R → Bool) → (R → R) → R → List R → Result (List R)
  assign_or_add same f r rows =
      if tally (λ x. same x r) rows == 0
      then ok (rows ++ (r ∷ []))
      else ok (map (λ x. if same x r then f x else x) rows)

-- `fill` gives a row its generated columns.
abbrev pub memory : {R : Type 0} → (R → R → Bool) → (R → R → Bool) → (List R → R → R) → Orm R
memory same clash fill = record {
  first = first_row;
  find = λ q rows. ok (keep (q.matching) rows);
  create = λ r rows. add_row clash (fill rows r) rows;
  create_unless = add_unless clash fill;
  create_or_assign = assign_or_add same;
  save = save_or_add same;
  updates = λ p f rows. ok (tally p rows, map (λ x. if p x then f x else x) rows);
  delete = λ p rows. ok (keep (λ x. not (p x)) rows);
  count = λ p rows. ok (pos (tally p rows));
  sum = λ p f rows. ok (sum_of p f rows);
}

module _ {R : Type 0} where
  first_row_hit :
      (p : R → Bool) (rows : List R) (r : R) → first_row p rows ≡ ok r → (p r ≡ true) × Holds rows r
  first_row_hit p [] r e = ground arith
  first_row_hit p (x ∷ xs) r e = elim (Bool-cases (p x)) [
    | inl hit ↦ let eq : x ≡ r = ground arith in (rw eq at hit, (0, rw eq refl))
    | inr miss ↦
        let (good, (i, at_i)) = first_row_hit p xs r (ground arith) in (good, (suc i, at_i))
  ]

  first_row_miss :
      (p : R → Bool) (rows : List R)
      → first_row p rows ≡ err record_not_found
      → All (λ r. p r ≡ false) rows
  first_row_miss p [] e = tt
  first_row_miss p (x ∷ xs) e = elim (Bool-cases (p x)) [
    | inl hit ↦ ground arith
    | inr miss ↦ (miss, first_row_miss p xs (ground arith))
  ]

  kept_head :
      (p : R → Bool) (x : R) (xs : List R) (r : R)
      → p x ≡ true
      → (Holds (keep p xs) r → Holds xs r × (p r ≡ true))
      → Holds (x ∷ keep p xs) r
      → Holds (x ∷ xs) r × (p r ≡ true)
  kept_head p x xs r hit rest (zero, e) = let eq : x ≡ r = ground arith in ((0, e), rw eq at hit)
  kept_head p x xs r hit rest (suc i, e) =
      let ((j, at_j), good) = rest (i, e) in ((suc j, at_j), good)

  Holds-keep :
      (p : R → Bool) (rows : List R) (r : R) → Holds (keep p rows) r → Holds rows r × (p r ≡ true)
  Holds-keep p [] r (i, e) = cc
  Holds-keep p (x ∷ xs) r h = elim (Bool-cases (p x)) [
    | inl hit ↦ kept_head p x xs r hit (Holds-keep p xs r) (rw hit at h)
    | inr miss ↦ let ((i, e), good) = Holds-keep p xs r (rw miss at h) in ((suc i, e), good)
  ]

  none_match : (p : R → Bool) (rows : List R) → tally p rows ≡ 0 → All (λ r. p r ≡ false) rows
  none_match p [] e = tt
  none_match p (x ∷ xs) e = elim (Bool-cases (p x)) [
    | inl hit ↦ ground arith
    | inr miss ↦ (miss, none_match p xs (ground arith))
  ]

  add_row_lem :
      (clash : R → R → Bool) (r r' : R) (rows rows' : List R)
      → add_row clash r rows ≡ ok (r', rows')
      → (rows' ≡ rows ++ (r ∷ [])) × (r' ≡ r) × All (λ x. clash x r ≡ false) rows
  add_row_lem clash r r' rows rows' e =
      let free : tally (λ x. clash x r) rows ≡ 0 = ground arith in
      (ground arith, ground arith, none_match (λ x. clash x r) rows free)

  add_unless_lem :
      (clash : R → R → Bool) (fill : List R → R → R) (n : ℕ) (r : R) (rows rows' : List R)
      → add_unless clash fill r rows ≡ ok (n, rows')
      → ((n ≡ 1) × All (λ x. clash x r ≡ false) rows × (rows' ≡ rows ++ (fill rows r ∷ [])))
        ⊎ ((n ≡ 0) × (rows' ≡ rows) × (tally (λ x. clash x r) rows ≢ 0))
  add_unless_lem clash fill n r rows rows' e =
      elim (Bool-cases (tally (λ x. clash x r) rows == 0)) [
        | inl free ↦
            inl (ground arith, none_match (λ x. clash x r) rows (ground arith), ground arith)
        | inr taken ↦ inr (ground arith, ground arith, λ free. ground (arith, taken, free))
      ]

  save_or_add_lem :
      (same : R → R → Bool) (r : R) (rows rows' : List R)
      → save_or_add same r rows ≡ ok rows'
      → tally (λ x. same x r) rows ≢ 0
      → rows' ≡ replace same r rows
  save_or_add_lem same r rows rows' e h = elim (Bool-cases (tally (λ x. same x r) rows == 0)) [
    | inl free ↦ ground arith
    | inr taken ↦ ground arith
  ]

  pub memory-Laws :
      (same clash : R → R → Bool) (fill : List R → R → R) (Filled : R → R → Type 0)
      → ((rows : List R) (r : R) → Filled r (fill rows r))
      → Laws (memory same clash fill) same clash Filled
  memory-Laws same clash fill Filled filled = record {
    first_hit = first_row_hit;
    first_miss = first_row_miss;
    find_rows = λ q rows out r e h.
        let same_rows : keep q.matching rows ≡ out = ground arith in
        Holds-keep q.matching rows r (rw (sym same_rows) at h);
    create_row = λ r r' rows rows' e.
        let (appended, made, free) = add_row_lem clash (fill rows r) r' rows rows' e in
        (rw made appended, rw made (filled rows r), rw made free);
    create_unless_row = λ n r rows rows' e. elim (add_unless_lem clash fill n r rows rows' e) [
      | inl (one_row, free, appended) ↦ inl (one_row, free, (fill rows r, filled rows r, appended))
      | inr taken ↦ inr taken
    ];
    save_row = save_or_add_lem same;
    updates_rows = λ p f n rows rows' e. (ground arith, ground arith);
    delete_rows = λ p rows rows' e. ground arith;
    count_rows = λ p rows n e. ground arith;
    sum_rows = λ p f rows n e. ground arith;
  }
