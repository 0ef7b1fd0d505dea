-- ===== src/Adapter/Sync/Step.antt =====
-- One step of the bus and a model: the vectors that the bus receives, and the vector that it sends.
use dse_modelc.Base.{
  ℕ, ◌≡◌, ◌≢◌, ◌⊎◌, refl, sym, ap, subst, ◌∙◌, inl, inr, true, false, not, ◌&&◌, some, List, [],
  ◌∷◌, ◌++◌, map, arith, All, length, Bool-cases, Option-cases, ◌==◌, ◌>>=◌,
}
use dse_modelc.Double.{Double}
use dse_modelc.SimBus.{SignalValue, Channel}
use dse_modelc.SimBus.Index.{find_signal_by_uid}
use dse_modelc.SimBus.Barrier.{has_uid}
use dse_modelc.SimBus.Handler.{
  SignalVector, receive_binary, receive_with, receive_all, binary_signals,
}
use dse_modelc.SimBus.Handler.Receive.{told, told_all, told-uid, IsIndexed, receive_all-told}
use dse_modelc.Adapter.Sync.{written, IsSame, IsSame-trans, Represents}

abbrev pub uids : {D : Type 0} → List (SignalValue D) → List ℕ
uids svs = map (λ sv. sv.uid) svs

-- Each signal of the model that has a uid is a signal of the bus.
abbrev pub Covers : {D : Type 0} → List (SignalValue D) → List (SignalValue D) → Type 0
Covers bus model = All (λ u. (u ≡ 0) ⊎ (has_uid u (uids bus) ≡ true)) (uids model)

-- The vector names no signal by the uid 0.
abbrev pub HasGivenUids : {D : Type 0} → SignalVector D → Type 0
HasGivenUids v = All (λ x. x.0 ≢ 0) v.signal × All (λ x. x.0 ≢ 0) v.binary_signal

-- The memory after the vectors are written, in order.
abbrev pub written_all : {D : Type 0} → List (SignalVector D) → (ℕ → D) → ℕ → D
written_all [] memory = memory
written_all (v ∷ vs) memory = written_all vs (written v.signal memory)

abbrev pub append_bin : {D : Type 0} → List ℕ → SignalValue D → SignalValue D
append_bin data_vec sv = record sv { bin = sv.bin ++ data_vec }

module _ {D S : Type 0} where
  receive_binary-with :
      (c : Channel D S) (x : ℕ × List ℕ)
      → x.0 ≢ 0
      → receive_binary c x ≡ receive_with append_bin c x
  unfolding receive_binary receive_with
  receive_binary-with c x given =
      let null : (x.0 == 0) ≡ false = ground arith in
      elim (Option-cases (find_signal_by_uid c x.0).0) [
        | inl e ↦ rw (receive_binary, receive_with, e, null)
        | inr (i, e) ↦ rw (receive_binary, receive_with, e)
      ]

  pub receive_all-binary :
      (c : Channel D S) (xs : List (ℕ × List ℕ))
      → All (λ x. x.0 ≢ 0) xs
      → receive_all receive_binary c xs ≡ receive_all (receive_with append_bin) c xs
  unfolding receive_all
  receive_all-binary c [] given = refl
  receive_all-binary c (x ∷ xs) given = elim (Option-cases (receive_with append_bin c x)) [
    | inl e ↦ rw (receive_all, receive_binary-with c x given.0, e)
    | inr (c', e) ↦
        rw (receive_all, receive_binary-with c x given.0, e) (receive_all-binary c' xs given.1)
  ]

  -- A vector is received: its binary signals are appended and its signals assigned.
  pub receive_vector :
      (assign : D → SignalValue D → SignalValue D)
      → ((v : D) (sv : SignalValue D) → (assign v sv).uid ≡ sv.uid)
      → (c : Channel D S) (v : SignalVector D) → IsIndexed c
      → HasGivenUids v
      → (c' : Channel D S) × ((receive_all receive_binary c v.binary_signal
            >>= (λ b. receive_all (receive_with assign) b v.signal))
          ≡ some c')
        × IsIndexed c'
        × (c'.signal_values
            ≡ told_all assign v.signal (told_all append_bin v.binary_signal c.signal_values))
  receive_vector assign keeps c v well given =
      let (b, e, well', now) =
        receive_all-told append_bin (λ d sv. refl) c v.binary_signal well given.1 in
      let (c', e', well'', now') = receive_all-told assign keeps b v.signal well' given.0 in
      (
        c',
        rw (receive_all-binary c v.binary_signal given.1, e) e',
        well'',
        now' ∙ ap (told_all assign v.signal) now,
      )

-- The signals of two lists have the same uids, in order; and a field of theirs is the same.
module _ {D V : Type 0} (assign : V → SignalValue D → SignalValue D)
    (keeps : (v : V) (sv : SignalValue D) → (assign v sv).uid ≡ sv.uid) where
  map-uids : (svs : List (SignalValue D)) (x : ℕ × V) → uids (map (told assign x) svs) ≡ uids svs
  map-uids [] x = refl
  map-uids (sv ∷ svs) x = rw (told-uid assign keeps x sv, map-uids svs x)

  pub told_all-uids :
      (svs : List (SignalValue D)) (xs : List (ℕ × V)) → uids (told_all assign xs svs) ≡ uids svs
  told_all-uids svs [] = refl
  told_all-uids svs (x ∷ xs) = told_all-uids (map (told assign x) svs) xs ∙ map-uids svs x

  module _ (double : Double D) (field : SignalValue D → D)
      (leaves : (v : V) (sv : SignalValue D) → field (assign v sv) ≡ field sv) where
    told-kept :
        (svs : List (SignalValue D)) (x : ℕ × V) (memory : ℕ → D)
        → Represents double field memory svs
        → Represents double field memory (map (told assign x) svs)
    told-kept [] x memory h = tt
    told-kept (sv ∷ svs) x memory h = (
      elim (Bool-cases (sv.uid == x.0)) [
        | inl e ↦ rw e (elim (h.0) [
          | inl null ↦ inl (keeps x.1 sv ∙ null)
          | inr same ↦
              let uid : sv.uid ≡ (assign x.1 sv).uid = sym (keeps x.1 sv) in
              let value : field sv ≡ field (assign x.1 sv) = sym (leaves x.1 sv) in
              inr (
                subst (λ u. IsSame double (field (assign x.1 sv)) (memory u)) uid
                  (subst (λ y. IsSame double y (memory sv.uid)) value same))
        ])
        | inr e ↦ rw e (h.0)
      ],
      told-kept svs x memory h.1,
    )

    pub told_all-kept :
        (svs : List (SignalValue D)) (xs : List (ℕ × V)) (memory : ℕ → D)
        → Represents double field memory svs
        → Represents double field memory (told_all assign xs svs)
    told_all-kept svs [] memory h = h
    told_all-kept svs (x ∷ xs) memory h =
        told_all-kept (map (told assign x) svs) xs memory (told-kept svs x memory h)

pub binary_signals-given :
    {D : Type 0} (svs : List (SignalValue D)) → All (λ x. x.0 ≢ 0) (binary_signals svs)
unfolding binary_signals
binary_signals-given [] = tt
binary_signals-given (sv ∷ svs) =
    elim (Bool-cases (not (length sv.bin == 0) && not (sv.uid == 0))) [
      | inl e ↦ rw (binary_signals, e) (ground arith, binary_signals-given svs)
      | inr e ↦ rw (binary_signals, e) (binary_signals-given svs)
    ]

module _ {D : Type 0} (double : Double D) where
  IsSame-sym : (x y : D) → IsSame double x y → IsSame double y x
  IsSame-sym x y (inl e) = inl (sym e)
  IsSame-sym x y (inr e) = inr (double.eq_sym x y e)

  -- Two memories that the same field of the bus's signals represents hold the same for its uids.
  memories_agree :
      (field : SignalValue D → D) (svs : List (SignalValue D)) (memory memory' : ℕ → D) (u : ℕ)
      → u ≢ 0
      → has_uid u (uids svs) ≡ true
      → Represents double field memory svs
      → Represents double field memory' svs
      → IsSame double (memory u) (memory' u)
  memories_agree field [] memory memory' u given h k k' = absurd (ground arith)
  memories_agree field (sv ∷ svs) memory memory' u given h k k' = elim (Bool-cases (sv.uid == u)) [
    | inr e ↦ memories_agree field svs memory memory' u given (rw e at h) k.1 k'.1
    | inl e ↦
        let uid : sv.uid ≡ u = ground arith in
        elim (k.0) [
          | inl null ↦ absurd (given (sym uid ∙ null))
          | inr same ↦ elim (k'.0) [
            | inl null ↦ absurd (given (sym uid ∙ null))
            | inr same' ↦
                subst (λ w. IsSame double (memory w) (memory' w)) uid
                  (IsSame-trans double (memory sv.uid) (field sv) (memory' sv.uid)
                    (IsSame-sym (field sv) (memory sv.uid) same) same')
          ]
        ]
  ]

  pub transfer :
      (field : SignalValue D → D) (bus : List (SignalValue D)) (memory memory' : ℕ → D)
      → Represents double field memory bus
      → Represents double field memory' bus
      → (value : SignalValue D → D) (svs : List (SignalValue D)) → Covers bus svs
      → Represents double value memory svs
      → Represents double value memory' svs
  transfer field bus memory memory' k k' value [] covers h = tt
  transfer field bus memory memory' k k' value (sv ∷ svs) covers h = (
    elim (h.0) [
      | inl null ↦ inl null
      | inr same ↦ elim (covers.0) [
        | inl null ↦ inl null
        | inr there ↦ elim (Bool-cases (sv.uid == 0)) [
          | inl null ↦ inl (ground arith)
          | inr given ↦ inr (
              IsSame-trans double (value sv) (memory sv.uid) (memory' sv.uid) same
                (memories_agree field bus memory memory' sv.uid (ground arith) there k k'))
        ]
      ]
    ],
    transfer field bus memory memory' k k' value svs covers.1 h.1,
  )
