-- ===== src/Pdu/Schedule/Rows.antt =====
-- Which signals pdunet_schedule() enables, stated by the times at which a PDU fires.
use native.Mathlib.Nat.{mul-mod_left, div-add-mod}
use dse_modelc.Base.{
  ℕ, zero, suc, ◌+◌, ◌-◌, ◌*◌, ◌/◌, ◌%◌, ◌^◌, ◌≤◌, ◌<◌, ◌≡◌, ◌↔◌, ◌⊎◌, inl, inr, refl, ◌∙◌, Bool,
  true, false, not, ◌&&◌, ◌||◌, List, [], ◌∷◌, some, arith, length, length-set, get_elem?,
  get_elem?-set_self, get_elem?-set_ne, set, ltb, leb, ◌==◌, if◌then◌else◌, Bool-cases,
}
use dse_modelc.Double.{Double}
use dse_modelc.Pdu.{Direction, HeaderFormat, Clock, PduObject, Net}
use dse_modelc.Pdu.Schedule.{
  is_container, set_skip, schedule_base, fires, enable, schedule_tx, schedule_pdu, schedule_loop,
  schedule,
}

-- The rows offset, ..., offset + count - 1.
in_rows : ℕ → ℕ → ℕ → Bool
in_rows offset count r = leb offset r && ltb r (offset + count)

length-set_skip : (l : List Bool) (o n : ℕ) (v : Bool) → length (set_skip l o n v) ≡ length l
unfolding set_skip
length-set_skip l o zero v = refl
length-set_skip l o (suc n) v = length-set_skip (set l o v) (o + 1) n v ∙ length-set l o v

get_elem?-set :
    (l : List Bool) (o r : ℕ) (v : Bool)
    → r < length l
    → get_elem? (set l o v) r ≡ (if o == r then some v else get_elem? l r)
get_elem?-set l o r v h =
    ground (arith, get_elem?-set_self l r v h, get_elem?-set_ne l {i = o} {j = r} v)

get_elem?-set_skip :
    (l : List Bool) (o n r : ℕ) (v : Bool)
    → r < length l
    → get_elem? (set_skip l o n v) r ≡ (if in_rows o n r then some v else get_elem? l r)
unfolding set_skip in_rows
get_elem?-set_skip l o zero r v h = ground arith
get_elem?-set_skip l o (suc n) r v h =
    get_elem?-set_skip (set l o v) (o + 1) n r v (omega (arith, length-set l o v))
    ∙ ground (arith, get_elem?-set l o r v h)

delta_lem : (t b : ℕ) → t < 2 ^ 32 → b ≤ t → (t + 2 ^ 32 - b) % 2 ^ 32 ≡ t - b
delta_lem t b h le = omega arith

-- The remainder of uint32_t arithmetic tells whole intervals.
whole_intervals :
    (t b n : ℕ)
    → t < 2 ^ 32
    → b ≤ t
    → 0 < n
    → (t + 2 ^ 32 - b) % 2 ^ 32 % n ≡ 0
    → t ≡ b + (t - b) / n * n
whole_intervals t b n h le pos e =
    let e' : (t - b) % n ≡ 0 = rw (delta_lem t b h le) at e in omega (arith, div-add-mod (t - b) n)

remainder_none : (t b n k : ℕ) → t < 2 ^ 32 → t ≡ b + k * n → (t + 2 ^ 32 - b) % 2 ^ 32 % n ≡ 0
remainder_none t b n k h e =
    let e' : t - b ≡ k * n = omega arith in
    rw (delta_lem t b h (omega arith), e') (mul-mod_left k n)

in_rows_all :
    (l : List Bool) (r : ℕ)
    → r < length l
    → (if in_rows 0 (length l) r then some true else get_elem? l r) ≡ some true
unfolding in_rows
in_rows_all l r h = ground arith

module _ {D : Type 0} (double : Double D) (clock : Clock D) where
  -- A time at which the PDU fires: a base that is not negative, and whole intervals from it.
  abbrev pub Fires : PduObject D → Type 0
  Fires o =
      (schedule_base double clock o < 2 ^ 31)
      × ((k : ℕ) × (clock.simulation_time ≡ schedule_base double clock o + k * o.interval))

  -- The signal of row r is calculated for the sake of PDU o.
  abbrev pub Enables : PduObject D → ℕ → Type 0
  Enables o r =
      (o.item.dir ≡ Direction.tx)
      × (o.header ≡ HeaderFormat.none)
      × ((o.interval ≡ 0) ⊎ Fires o)
      × (o.range_offset ≤ r)
      × (r < o.range_offset + o.range_count)

  abbrev pub SomeEnables : List (PduObject D) → ℕ → Type 0
  SomeEnables [] r = ⊥
  SomeEnables (o ∷ os) r = Enables o r ⊎ SomeEnables os r

  abbrev is_tx : Direction → Bool
  is_tx Direction.tx = true
  is_tx _ = false

  enables : PduObject D → ℕ → Bool
  enables o r =
      is_tx o.item.dir
      && not (is_container o.header)
      && (o.interval == 0 || fires double clock o)
      && in_rows o.range_offset o.range_count r

  -- One round enables the rows of its PDU, and no others.
  schedule_pdu-rows :
      (o : PduObject D) (skip : List Bool) (r : ℕ)
      → r < length skip
      → let skip' = (schedule_pdu double clock o skip).1 in
        (length skip' ≡ length skip)
        × (get_elem? skip' r ≡ (if enables o r then some false else get_elem? skip r))
  unfolding schedule_pdu schedule_tx enable enables
  schedule_pdu-rows o skip r h = (
    ground (arith, length-set_skip skip o.range_offset o.range_count false),
    ground (arith, get_elem?-set_skip skip o.range_offset o.range_count r false h),
  )

  some_enables : List (PduObject D) → ℕ → Bool
  some_enables [] r = false
  some_enables (o ∷ os) r = enables o r || some_enables os r

  schedule_loop-rows :
      (os : List (PduObject D)) (skip : List Bool) (r : ℕ)
      → r < length skip
      → get_elem? (schedule_loop double clock os skip).1 r
        ≡ (if some_enables os r then some false else get_elem? skip r)
  unfolding schedule_loop some_enables
  schedule_loop-rows [] skip r h = refl
  schedule_loop-rows (o ∷ os) skip r h =
      let (kept, one) = schedule_pdu-rows o skip r h in
      schedule_loop-rows os (schedule_pdu double clock o skip).1 r (omega (arith, kept))
      ∙ ground (arith, one)

  pub fires_iff :
      (o : PduObject D)
      → clock.simulation_time < 2 ^ 32
      → 0 < o.interval
      → (fires double clock o ≡ true) ↔ Fires o
  unfolding fires
  fires_iff o h pos =
      let t = clock.simulation_time in
      let b = schedule_base double clock o in
      (
        λ e. (
          ground arith,
          (
            (t - b) / o.interval,
            whole_intervals t b o.interval h (ground arith) pos (ground arith),
          ),
        ),
        λ (low, (k, e)).
            let e' : (t + 2 ^ 32 - b) % 2 ^ 32 % o.interval ≡ 0 =
              remainder_none t b o.interval k h e in
            let le : b ≤ t = omega arith in ground arith,
      )

  enables_iff :
      (o : PduObject D) (r : ℕ)
      → clock.simulation_time < 2 ^ 32
      → (enables o r ≡ true) ↔ Enables o r
  unfolding enables in_rows
  enables_iff o r h = (λ e. ground (arith, (fires_iff o h)), λ e. ground (arith, (fires_iff o h)))

  some_enables_iff :
      (os : List (PduObject D)) (r : ℕ)
      → clock.simulation_time < 2 ^ 32
      → (some_enables os r ≡ true) ↔ SomeEnables os r
  unfolding some_enables
  some_enables_iff [] r h = (λ e. cc, λ e. absurd e)
  some_enables_iff (o ∷ os) r h =
      let here = enables_iff o r h in
      let rest = some_enables_iff os r h in
      (λ e. ground (arith, here, rest), λ e. ground (arith, here, rest))

-- After the schedule, a signal is calculated (its skip flag is false) exactly if some Tx PDU that
-- is no container has it among its signals and either has no interval or fires now, that is, the
-- simulation time is its base plus a whole number of intervals. Every other signal is skipped.
pub schedule-enabled_iff :
    {D L : Type 0} (double : Double D) (net : Net D L) (r : ℕ)
    → r < length net.skip
    → net.clock.simulation_time < 2 ^ 32
    → ((get_elem? (schedule double net).skip r ≡ some false)
        ↔ SomeEnables double net.clock net.pdus r)
      × ((get_elem? (schedule double net).skip r ≡ some true)
          ↔ ¬ SomeEnables double net.clock net.pdus r)
unfolding schedule
schedule-enabled_iff double net r h t =
    let all = set_skip net.skip 0 (length net.skip) true in
    let size : length all ≡ length net.skip = length-set_skip net.skip 0 (length net.skip) true in
    let first : get_elem? all r ≡ some true =
      get_elem?-set_skip net.skip 0 (length net.skip) r true h ∙ all_rows in
    let rows = schedule_loop-rows double net.clock net.pdus all r (omega arith) in
    let which = some_enables_iff double net.clock net.pdus r t in
    ((λ e. ground arith, λ e. ground arith), (λ e m. ground arith, λ e. unselected e))
  where
    unselected :
        ¬ SomeEnables double net.clock net.pdus r
        → get_elem? (schedule double net).skip r ≡ some true
    unselected no_pdu = elim (Bool-cases (some_enables double net.clock net.pdus r)) [
      | inl on ↦ absurd (no_pdu ((some_enables_iff double net.clock net.pdus r t).0 on))
      | inr off ↦
          schedule_loop-rows double net.clock net.pdus (set_skip net.skip 0 (length net.skip) true)
            r (omega (arith, length-set_skip net.skip 0 (length net.skip) true))
          ∙ rw off
              (get_elem?-set_skip net.skip 0 (length net.skip) r true h ∙ in_rows_all net.skip r h)
    ]

    all_rows :
        (if in_rows 0 (length net.skip) r then some true else get_elem? net.skip r) ≡ some true
    all_rows = in_rows_all net.skip r h
