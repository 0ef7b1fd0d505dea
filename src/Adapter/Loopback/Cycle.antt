-- ===== src/Adapter/Loopback/Cycle.antt =====
-- A step of the loopback adapter on one channel of scalar signals.
use dse_modelc.Base.{
  ℕ, zero, suc, ◌<◌, ◌≡◌, refl, sym, ap, subst, ◌∙◌, inl, inr, false, not, Option, none, some, List,
  [], ◌∷◌, arith, All, Bool-cases, some_cancel, none≢some, length, get_elem?, set, length-set, ◌==◌,
  ◌>>=◌, if◌then◌else◌,
}
use dse_modelc.Double.{Double}
use dse_modelc.SimBus.{SignalValue}
use dse_modelc.Adapter.Sync.{written}
use dse_modelc.Adapter.Loopback.{Slot}
use dse_modelc.Adapter.Loopback.Exchange.{ready_signal, ready_signals, start_signal, start_signals}

-- A signal without binary data whose index is in a vector of n slots.
abbrev pub IsScalar : {D : Type 0} → ℕ → SignalValue D → Type 0
IsScalar n sv = (sv.bin ≡ []) × (sv.vector_index < n)

abbrev pub HasNoBinary : {D : Type 0} → List (Slot D) → Type 0
HasNoBinary slots = All (λ s. s.binary ≡ []) slots

-- The scalar of the slot at an index.
abbrev pub scalar_at : {D : Type 0} → List (Slot D) → ℕ → Option D
scalar_at slots i = elim (get_elem? slots i) [ none ↦ none | some s ↦ some s.scalar ]

inside : {A : Type 0} (xs : List A) (i : ℕ) → i < length xs → (x : A) × (get_elem? xs i ≡ some x)
inside [] i h = absurd (omega arith)
inside (x ∷ xs) zero h = (x, refl)
inside (x ∷ xs) (suc i) h = inside xs i (omega arith)

HasNoBinary-set :
    {D : Type 0} (slots : List (Slot D)) (i : ℕ) (s : Slot D)
    → s.binary ≡ []
    → HasNoBinary slots
    → HasNoBinary (set slots i s)
HasNoBinary-set [] i s e h = tt
HasNoBinary-set (x ∷ slots) zero s e h = (e, h.1)
HasNoBinary-set (x ∷ slots) (suc i) s e h = (h.0, HasNoBinary-set slots i s e h.1)

HasNoBinary-at :
    {D : Type 0} (slots : List (Slot D)) (i : ℕ) (s : Slot D)
    → get_elem? slots i ≡ some s
    → HasNoBinary slots
    → s.binary ≡ []
HasNoBinary-at [] i s e h = absurd (none≢some e)
HasNoBinary-at (x ∷ slots) zero s e h = subst (λ t. t.binary ≡ []) (some_cancel e) (h.0)
HasNoBinary-at (x ∷ slots) (suc i) s e h = HasNoBinary-at slots i s e h.1

scalar_at-set :
    {D : Type 0} (slots : List (Slot D)) (i : ℕ) (s : Slot D) (v : D) (j : ℕ)
    → get_elem? slots i ≡ some s
    → scalar_at (set slots i (record s { scalar = v })) j
      ≡ (if i == j then some v else scalar_at slots j)
scalar_at-set [] i s v j e = absurd (none≢some e)
scalar_at-set (x ∷ slots) zero s v zero e = refl
scalar_at-set (x ∷ slots) zero s v (suc j) e = ground arith
scalar_at-set (x ∷ slots) (suc i) s v zero e = ground arith
scalar_at-set (x ∷ slots) (suc i) s v (suc j) e = scalar_at-set slots i s v j e ∙ ground arith

module _ {D : Type 0} (double : Double D) where
  -- What a model's signals write to the vector: the final values that differ from the values.
  abbrev pub changes : List (SignalValue D) → List (ℕ × Option D)
  changes [] = []
  changes (sv ∷ svs) =
      if double.eq sv.val sv.final_val
      then changes svs
      else (sv.vector_index, some sv.final_val) ∷ changes svs

  ready_signals-written :
      (svs : List (SignalValue D)) (slots : List (Slot D)) (memory : ℕ → Option D)
      → All (IsScalar (length slots)) svs
      → HasNoBinary slots
      → ((i : ℕ) → scalar_at slots i ≡ memory i)
      → (slots' : List (Slot D)) × (ready_signals double svs slots ≡ some (svs, slots'))
        × (length slots' ≡ length slots)
        × HasNoBinary slots'
        × ((i : ℕ) → scalar_at slots' i ≡ written (changes svs) memory i)
  unfolding ready_signals ready_signal
  ready_signals-written [] slots memory scalar empty same = (slots, refl, refl, empty, same)
  ready_signals-written (sv ∷ svs) slots memory scalar empty same =
      let no_bin : length sv.bin ≡ 0 = ap length (scalar.0.0) in
      let none_sent : not (length sv.bin == 0) ≡ false = ground arith in
      elim (Bool-cases (double.eq sv.val sv.final_val)) [
        | inl quiet ↦
            let (slots', e, len, empty', now) =
              ready_signals-written svs slots memory scalar.1 empty same in
            (
              slots',
              rw (ready_signals, ready_signal, none_sent, quiet, e),
              len,
              empty',
              λ i. rw quiet (now i),
            )
        | inr changed ↦
            let (s, at) = inside slots sv.vector_index scalar.0.1 in
            let slots1 = set slots sv.vector_index (record s { scalar = sv.final_val }) in
            let len1 : length slots1 ≡ length slots =
              length-set slots sv.vector_index (record s { scalar = sv.final_val }) in
            let memory1 : ℕ → Option D =
              λ i. if sv.vector_index == i then some sv.final_val else memory i in
            let same1 : (i : ℕ) → scalar_at slots1 i ≡ memory1 i = λ i.
              scalar_at-set slots sv.vector_index s sv.final_val i at
              ∙ ap (λ m. if sv.vector_index == i then some sv.final_val else m) (same i) in
            let (slots', e, len, empty', now) =
              ready_signals-written svs slots1 memory1
                (subst (λ n. All (IsScalar n) svs) (sym len1) scalar.1)
                (HasNoBinary-set slots sv.vector_index (record s { scalar = sv.final_val })
                  (HasNoBinary-at slots sv.vector_index s at empty) empty)
                same1 in
            (
              slots',
              rw (ready_signals, ready_signal, none_sent, changed, at, e),
              len ∙ len1,
              empty',
              λ i. rw changed (now i),
            )
      ]

-- The value and the final value of the signal are what the memory holds at its index.
abbrev pub IsStarted : {D : Type 0} → (ℕ → Option D) → SignalValue D → Type 0
IsStarted memory sv = (memory sv.vector_index ≡ some sv.val) × (sv.final_val ≡ sv.val)

start_signals-IsStarted :
    {D : Type 0} (svs : List (SignalValue D)) (slots : List (Slot D)) (memory : ℕ → Option D)
    → All (IsScalar (length slots)) svs
    → HasNoBinary slots
    → ((i : ℕ) → scalar_at slots i ≡ memory i)
    → (svs' : List (SignalValue D)) × (start_signals slots svs ≡ some svs')
      × (length svs' ≡ length svs)
      × All (IsStarted memory) svs'
unfolding start_signals start_signal
start_signals-IsStarted [] slots memory scalar empty same = ([], refl, refl, tt)
start_signals-IsStarted (sv ∷ svs) slots memory scalar empty same =
    let (s, at) = inside slots sv.vector_index scalar.0.1 in
    let no_bin : length s.binary ≡ 0 =
      ap length (HasNoBinary-at slots sv.vector_index s at empty) in
    let none_sent : not (length s.binary == 0) ≡ false = ground arith in
    let held : memory sv.vector_index ≡ some s.scalar =
      sym (same sv.vector_index) ∙ rw (scalar_at, at) in
    let (svs', e, len, started) = start_signals-IsStarted svs slots memory scalar.1 empty same in
    (
      record sv { val = s.scalar; final_val = s.scalar } ∷ svs',
      rw (start_signals, start_signal, at, none_sent, e),
      ap suc len,
      ((held, refl), started),
    )

module _ {D : Type 0} (double : Double D) where
  -- The models are ready one after the other.
  abbrev pub ready_each : List (List (SignalValue D)) → List (Slot D) → Option (List (Slot D))
  ready_each [] slots = some slots
  ready_each (svs ∷ rest) slots = ready_signals double svs slots >>= (λ r. ready_each rest r.1)

  abbrev pub written_each : List (List (SignalValue D)) → (ℕ → Option D) → ℕ → Option D
  written_each [] memory = memory
  written_each (svs ∷ rest) memory = written_each rest (written (changes double svs) memory)

  ready_each-written :
      (models : List (List (SignalValue D))) (slots : List (Slot D)) (memory : ℕ → Option D)
      → All (All (IsScalar (length slots))) models
      → HasNoBinary slots
      → ((i : ℕ) → scalar_at slots i ≡ memory i)
      → (slots' : List (Slot D)) × (ready_each models slots ≡ some slots')
        × (length slots' ≡ length slots)
        × HasNoBinary slots'
        × ((i : ℕ) → scalar_at slots' i ≡ written_each models memory i)
  ready_each-written [] slots memory scalar empty same = (slots, refl, refl, empty, same)
  ready_each-written (svs ∷ rest) slots memory scalar empty same =
      let (slots1, e1, len1, empty1, same1) =
        ready_signals-written double svs slots memory scalar.0 empty same in
      let (slots2, e2, len2, empty2, same2) =
        ready_each-written rest slots1 (written (changes double svs) memory)
          (subst (λ n. All (All (IsScalar n)) rest) (sym len1) scalar.1) empty1 same1 in
      (slots2, rw e1 e2, len2 ∙ len1, empty2, same2)

  -- On a channel of scalar signals, whose indexes are in the vector: when any number of models are
  -- ready and a model then starts, both succeed, the value and the final value of each of its
  -- signals are what the vector held at the signal's index, or the last final value that one of the
  -- models changed there, in the order of the models.
  pub ready_each-IsStarted :
      (models : List (List (SignalValue D))) (svs : List (SignalValue D)) (slots : List (Slot D))
      → All (All (IsScalar (length slots))) models
      → All (IsScalar (length slots)) svs
      → HasNoBinary slots
      → (slots' : List (Slot D)) × (svs' : List (SignalValue D)) × (ready_each models slots
          ≡ some slots')
        × (start_signals slots' svs ≡ some svs')
        × (length svs' ≡ length svs)
        × All (IsStarted (written_each models (scalar_at slots))) svs'
  ready_each-IsStarted models svs slots scalar scalar' empty =
      let (slots', e, len, empty', same) =
        ready_each-written models slots (scalar_at slots) scalar empty (λ i. refl) in
      let (svs', e', len', started) =
        start_signals-IsStarted svs slots' (written_each models (scalar_at slots))
          (subst (λ n. All (IsScalar n) svs) (sym len) scalar') empty' same in
      (slots', svs', e, e', len', started)
