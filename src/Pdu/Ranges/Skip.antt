-- ===== src/Pdu/Ranges/Skip.antt =====
-- Rows that the schedule skips are not calculated.
use dse_modelc.Base.{
  ℕ, zero, suc, ◌+◌, ◌≤◌, ◌<◌, ◌≡◌, refl, ap, ◌∙◌, Bool, true, false, some, List, [], ◌∷◌, ◌++◌,
  arith, none≢some, length, get_elem?, take, drop,
}
use dse_modelc.Double.{Double}
use dse_modelc.Pdu.{Direction, Row, Range, Net}
use dse_modelc.Pdu.Script.{Scripts}
use dse_modelc.Pdu.Matrix.{encode_row, in_range}
use dse_modelc.Pdu.Ranges.{Payloads, encode_rows, calculate_linear_range}

module _ {A : Type 0} where
  -- A run of elements that is replaced, for an element that stays.
  put_first :
      (n : ℕ) (xs new : List A) (i : ℕ) (x : A)
      → get_elem? xs i ≡ some x
      → length new ≡ length (take n xs)
      → ((j : ℕ) → j ≡ i → get_elem? (take n xs) j ≡ some x → get_elem? new j ≡ some x)
      → get_elem? (new ++ drop n xs) i ≡ some x
  put_first zero xs [] i x e size h = e
  put_first zero xs (y ∷ new) i x e size h = absurd (omega arith)
  put_first (suc n) [] new i x e size h = absurd (none≢some e)
  put_first (suc n) (z ∷ xs) [] i x e size h = absurd (omega arith)
  put_first (suc n) (z ∷ xs) (y ∷ new) zero x e size h = h zero refl e
  put_first (suc n) (z ∷ xs) (y ∷ new) (suc i) x e size h =
      put_first n xs new i x e (omega arith) (λ j eq. h (suc j) (ap suc eq))

  put_run :
      (o n : ℕ) (xs new : List A) (i : ℕ) (x : A)
      → get_elem? xs i ≡ some x
      → length new ≡ length (take n (drop o xs))
      → ((j : ℕ) → o + j ≡ i → get_elem? (take n (drop o xs)) j ≡ some x → get_elem? new j ≡ some x)
      → get_elem? (take o xs ++ (new ++ drop (o + n) xs)) i ≡ some x
  put_run zero n xs new i x e size h =
      let start : 0 + n ≡ n = omega arith in
      rw start (put_first n xs new i x e size (λ j eq. h j (omega arith)))
  put_run (suc o) n [] new i x e size h = absurd (none≢some e)
  put_run (suc o) n (z ∷ xs) new zero x e size h = e
  put_run (suc o) n (z ∷ xs) new (suc i) x e size h =
      let next : suc o + n ≡ suc (o + n) = omega arith in
      rw next (put_run o n xs new i x e size (λ j eq. h j (omega arith)))

  get_elem?-run :
      (o n : ℕ) (xs : List A) (j : ℕ) (m : ℕ)
      → j < m
      → m ≤ n
      → get_elem? (take n (drop o xs)) j ≡ get_elem? xs (o + j)
  get_elem?-run zero (suc n) [] j m h k = refl
  get_elem?-run zero zero xs j m h k = absurd (omega arith)
  get_elem?-run zero (suc n) (x ∷ xs) zero m h k = refl
  get_elem?-run zero (suc n) (x ∷ xs) (suc j) m h k =
      let next : 0 + suc j ≡ suc (0 + j) = omega arith in
      rw next (get_elem?-run zero n xs j n (omega arith) (omega arith))
  get_elem?-run (suc o) zero [] j m h k = absurd (omega arith)
  get_elem?-run (suc o) (suc n) [] j m h k = refl
  get_elem?-run (suc o) n (x ∷ xs) j m h k =
      let next : suc o + j ≡ suc (o + j) = omega arith in rw next (get_elem?-run o n xs j m h k)

  bounded : (n : ℕ) (xs : List A) (j : ℕ) (x : A) → get_elem? (take n xs) j ≡ some x → j < n
  bounded zero xs j x e = absurd (none≢some e)
  bounded (suc n) [] j x e = absurd (none≢some e)
  bounded (suc n) (y ∷ xs) zero x e = omega arith
  bounded (suc n) (y ∷ xs) (suc j) x e = omega (arith, bounded n xs j x e)

module _ {D L : Type 0} (double : Double D) (scripts : Scripts D L) where
  encode_rows-length :
      (skips : List Bool) (rows : List (Row D)) (b : Payloads L)
      → length (encode_rows double scripts skips rows b).0 ≡ length rows
  unfolding encode_rows
  encode_rows-length skips [] b = refl
  encode_rows-length [] (r ∷ rows) b = refl
  encode_rows-length (skip ∷ skips) (r ∷ rows) b = ap suc (encode_rows-length skips rows _)

  encode_rows-skipped :
      (skips : List Bool) (rows : List (Row D)) (b : Payloads L) (i : ℕ) (r : Row D)
      → get_elem? skips i ≡ some true
      → get_elem? rows i ≡ some r
      → get_elem? (encode_rows double scripts skips rows b).0 i ≡ some r
  unfolding encode_rows encode_row
  encode_rows-skipped [] rows b i r s e = absurd (none≢some s)
  encode_rows-skipped (skip ∷ skips) [] b i r s e = absurd (none≢some e)
  encode_rows-skipped (true ∷ skips) (x ∷ rows) b zero r s e = e
  encode_rows-skipped (false ∷ skips) (x ∷ rows) b zero r s e = absurd (ground arith)
  encode_rows-skipped (skip ∷ skips) (x ∷ rows) b (suc i) r s e =
      encode_rows-skipped skips rows _ i r s e

  -- When the linear transform runs over a Tx range, every row of the matrix whose skip flag is set
  -- stays as it is.
  pub calculate_linear_range-skipped :
      (net : Net D L) (range : Range) (i : ℕ) (r : Row D)
      → range.dir ≡ Direction.tx
      → get_elem? net.skip i ≡ some true
      → get_elem? net.rows i ≡ some r
      → get_elem? (calculate_linear_range double scripts net range).rows i ≡ some r
  unfolding calculate_linear_range
  calculate_linear_range-skipped net range i r tx skipped e =
      let rows = in_range range net.rows in
      let skips = take range.length (drop range.offset net.skip) in
      let b : Payloads L = record { payloads = net.payloads; lua = net.lua } in
      rw (calculate_linear_range, tx)
        (put_run range.offset range.length net.rows (encode_rows double scripts skips rows b).0 i r
          e (encode_rows-length skips rows b)
          (λ j same here.
            encode_rows-skipped skips rows b j r
              (get_elem?-run range.offset range.length net.skip j range.length
                  (bounded range.length (drop range.offset net.rows) j r here) (omega arith)
                ∙ ap (get_elem? net.skip) same
                ∙ skipped)
              here))
