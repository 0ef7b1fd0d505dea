-- ===== src/Adapter/Sync.antt =====
-- A channel of the bus and the same channel of a model as one shared memory, by uid: the values
-- that both hold, and what the signals of a vector do to it.
pub mod Step
pub mod Memory
use dse_modelc.Base.{
  ℕ, suc, ◌≡◌, ◌≢◌, ◌⊎◌, refl, sym, ap, subst, ◌∙◌, inl, inr, Bool, true, false, not, ◌&&◌, List,
  [], ◌∷◌, map, arith, All, Bool-cases, ◌==◌, if◌then◌else◌,
}
use dse_modelc.Double.{Double}
use dse_modelc.SimBus.{SignalValue}
use dse_modelc.SimBus.Handler.{changed_signals}
use dse_modelc.SimBus.Handler.Receive.{told, told_all, HasOwnUids}

-- The memory after values are written, in order.
abbrev pub write : {D : Type 0} → ℕ × D → (ℕ → D) → ℕ → D
write x memory u = if x.0 == u then x.1 else memory u

abbrev pub written : {D : Type 0} → List (ℕ × D) → (ℕ → D) → ℕ → D
written [] memory = memory
written (x ∷ xs) memory = written xs (write x memory)

module _ {D : Type 0} (double : Double D) where
  -- The same value, or values that compare equal, like 0 and -0.
  abbrev pub IsSame : D → D → Type 0
  IsSame x y = (x ≡ y) ⊎ (double.eq x y ≡ true)

  -- A field of each signal that has a uid is what the memory holds.
  abbrev pub Represents : (SignalValue D → D) → (ℕ → D) → List (SignalValue D) → Type 0
  Represents field memory svs = All (λ sv. (sv.uid ≡ 0) ⊎ IsSame (field sv) (memory sv.uid)) svs

  pub IsSame-trans : (x y z : D) → IsSame x y → IsSame y z → IsSame x z
  IsSame-trans x y z (inl e) k = subst (λ t. IsSame t z) (sym e) k
  IsSame-trans x y z (inr e) (inl k) = inr (subst (λ t. double.eq x t ≡ true) k e)
  IsSame-trans x y z (inr e) (inr k) = inr (double.eq_trans x y z e k)

  module _ (assign : D → SignalValue D → SignalValue D) (field : SignalValue D → D)
      (keeps : (v : D) (sv : SignalValue D) → (assign v sv).uid ≡ sv.uid)
      (stores : (v : D) (sv : SignalValue D) → field (assign v sv) ≡ v) where
    told-Represents :
        (svs : List (SignalValue D)) (x : ℕ × D) (memory : ℕ → D)
        → Represents field memory svs
        → Represents field (write x memory) (map (told assign x) svs)
    told-Represents [] x memory h = tt
    told-Represents (sv ∷ svs) x memory h = (
      elim (Bool-cases (sv.uid == x.0)) [
        | inl e ↦
            let here : (x.0 == (assign x.1 sv).uid) ≡ true = ground (arith, keeps x.1 sv) in
            rw (e, here) (inr (inl (stores x.1 sv)))
        | inr e ↦ let other : (x.0 == sv.uid) ≡ false = ground arith in rw (e, other) (h.0)
      ],
      told-Represents svs x memory h.1,
    )

    -- Signals that are assigned the values of a vector represent the memory after it.
    pub told_all-Represents :
        (svs : List (SignalValue D)) (xs : List (ℕ × D)) (memory : ℕ → D)
        → Represents field memory svs
        → Represents field (written xs memory) (told_all assign xs svs)
    told_all-Represents svs [] memory h = h
    told_all-Represents svs (x ∷ xs) memory h =
        told_all-Represents (map (told assign x) svs) xs (write x memory)
          (told-Represents svs x memory h)

  written_kept :
      (svs : List (SignalValue D)) (memory : ℕ → D) (u : ℕ)
      → u ≢ 0
      → All (λ t. (t.uid ≢ u) ⊎ (t.uid ≡ 0)) svs
      → written (changed_signals double svs) memory u ≡ memory u
  unfolding changed_signals
  written_kept [] memory u given h = refl
  written_kept (sv ∷ svs) memory u given h =
      elim (Bool-cases (not (double.eq sv.val sv.final_val) && not (sv.uid == 0))) [
        | inl e ↦
            let other : (sv.uid == u) ≡ false = ground (arith, h.0) in
            rw (changed_signals, e)
              (written_kept svs (write (sv.uid, sv.final_val) memory) u given h.1 ∙ rw other)
        | inr e ↦ rw (changed_signals, e) (written_kept svs memory u given h.1)
      ]

  write-Represents :
      (svs : List (SignalValue D)) (field : SignalValue D → D) (memory : ℕ → D) (x : ℕ × D)
      → All (λ t. (t.uid ≢ x.0) ⊎ (t.uid ≡ 0)) svs
      → Represents field memory svs
      → Represents field (write x memory) svs
  write-Represents [] field memory x h k = tt
  write-Represents (sv ∷ svs) field memory x h k = (
    elim (h.0) [
      | inr e ↦ inl e
      | inl e ↦ let other : (x.0 == sv.uid) ≡ false = ground (arith, e) in rw other (k.0)
    ],
    write-Represents svs field memory x h.1 k.1,
  )

  -- The vector of the changed signals carries a memory that the values represent to one that the
  -- final values represent.
  pub changed_signals-Represents :
      (svs : List (SignalValue D)) (memory : ℕ → D)
      → HasOwnUids svs
      → Represents (λ sv. sv.val) memory svs
      → Represents (λ sv. sv.final_val) (written (changed_signals double svs) memory) svs
  unfolding changed_signals
  changed_signals-Represents [] memory own h = tt
  changed_signals-Represents (sv ∷ svs) memory own h =
      elim (Bool-cases (not (double.eq sv.val sv.final_val) && not (sv.uid == 0))) [
        | inl e ↦
            let x : ℕ × D = (sv.uid, sv.final_val) in
            let given : sv.uid ≢ 0 = ground arith in
            let here : (sv.uid == sv.uid) ≡ true = ground arith in
            let vector : x ∷ changed_signals double svs ≡ changed_signals double (sv ∷ svs) =
              rw (changed_signals, e) in
            subst (λ xs. Represents (λ t. t.final_val) (written xs memory) (sv ∷ svs)) vector
              (
                inr (inl (sym (written_kept svs (write x memory) sv.uid given own.0 ∙ rw here))),
                changed_signals-Represents svs (write x memory) own.1
                    (write-Represents svs (λ t. t.val) memory x own.0 h.1),
              )
        | inr e ↦
            let vector : changed_signals double svs ≡ changed_signals double (sv ∷ svs) =
              rw (changed_signals, e) in
            subst (λ xs. Represents (λ t. t.final_val) (written xs memory) (sv ∷ svs)) vector
              (
                elim (Bool-cases (sv.uid == 0)) [
                  | inl null ↦ inl (ground arith)
                  | inr given ↦
                      let same : double.eq sv.val sv.final_val ≡ true = ground arith in
                      elim (h.0) [
                        | inl null ↦ inl null
                        | inr k ↦ inr (
                            rw (written_kept svs memory sv.uid (ground arith) own.0) (
                              IsSame-trans sv.final_val sv.val (memory sv.uid)
                                (inr (double.eq_sym sv.val sv.final_val same)) k))
                      ]
                ],
                changed_signals-Represents svs memory own.1 h.1,
              )
      ]
