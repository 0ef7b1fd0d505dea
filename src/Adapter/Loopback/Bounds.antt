-- ===== src/Adapter/Loopback/Bounds.antt =====
-- The vectors of the direct index lie in its map.
use dse_modelc.Base.{
  ℕ, zero, suc, ◌+◌, ◌-◌, ◌*◌, ◌%◌, ◌^◌, ◌≤◌, ◌<◌, ◌⊎◌, ltb, ◌≡◌, refl, subst, ◌∙◌, inl, inr, Bool,
  true, false, not, some, List, [], ◌∷◌, ◌++◌, arith, All, Bool-cases, Option-cases, some_cancel,
  none≢some, length, get_elem?, set, ◌==◌, if◌then◌else◌,
}
use dse_modelc.Double.{Double}
use dse_modelc.SimBus.Index.{same_name}
use dse_modelc.Adapter.Loopback.{SimbusChannel, NameSet, Loopback, find_channel, get_simbus_channel}
use dse_modelc.Adapter.Loopback.Layout.{
  DirectIndex, item_size, grown_size, place_channel, scalar_offset, binary_offset, length_offset,
  buffer_size_offset, direct_index_configure, configure_all, connect,
}

-- The four vectors of a channel, of 8, 8, 4 and 4 bytes for each signal, end in a map of n bytes.
-- They follow each other, unless 20 times the length is no uint32_t.
abbrev pub IsWithin : {D N : Type 0} → ℕ → SimbusChannel D N → Type 0
IsWithin n sc =
    (scalar_offset sc + sc.length * 8 ≤ n)
    × (binary_offset sc + sc.length * 8 ≤ n)
    × (length_offset sc + sc.length * 4 ≤ n)
    × (buffer_size_offset sc + sc.length * 4 ≤ n)
    × ((2 ^ 32 ≤ sc.length * 20)
        ⊎ ((scalar_offset sc + sc.length * 8 ≡ binary_offset sc)
            × (binary_offset sc + sc.length * 8 ≡ length_offset sc)
            × (length_offset sc + sc.length * 4 ≡ buffer_size_offset sc)))

module _ {D N : Type 0} where
  ends-IsWithin :
      (n : ℕ) (sc : SimbusChannel D N) → sc.offset + sc.length * item_size ≤ n → IsWithin n sc
  unfolding scalar_offset binary_offset length_offset buffer_size_offset
  ends-IsWithin n sc h = (
    omega arith,
    omega arith,
    omega arith,
    omega arith,
    elim (Bool-cases (ltb (sc.length * 20) (2 ^ 32))) [
      | inr wraps ↦ inl (ground arith)
      | inl fits ↦
          let small : sc.length * 20 < 2 ^ 32 = ground arith in
          inr (omega arith, omega arith, omega arith)
    ],
  )

  IsWithin-grows :
      (n m : ℕ) (scs : List (SimbusChannel D N))
      → n ≤ m
      → All (IsWithin n) scs
      → All (IsWithin m) scs
  IsWithin-grows n m [] le h = tt
  IsWithin-grows n m (sc ∷ scs) le ((a, b, c, d, follow), h) =
      ((omega arith, omega arith, omega arith, omega arith, follow), IsWithin-grows n m scs le h)

  found_in :
      (name : List ℕ) (k i : ℕ) (scs : List (SimbusChannel D N))
      → find_channel name k scs ≡ some i
      → (k ≤ i) × ((sc : SimbusChannel D N) × (get_elem? scs (i - k) ≡ some sc))
  unfolding find_channel
  found_in name k i [] e = absurd (none≢some e)
  found_in name k i (sc ∷ scs) e = elim (Bool-cases (same_name sc.name name)) [
    | inl hit ↦
        let here : k ≡ i = some_cancel (rw (find_channel, hit) at e) in
        let first : 0 ≡ i - k = omega arith in
        (omega arith, (sc, subst (λ j. get_elem? (sc ∷ scs) j ≡ some sc) first refl))
    | inr miss ↦
        let (le, (sc', at)) = found_in name (k + 1) i scs (rw (find_channel, miss) at e) in
        let next : suc (i - (k + 1)) ≡ i - k = omega arith in
        (omega arith, (sc', subst (λ j. get_elem? (sc ∷ scs) j ≡ some sc') next at))
  ]

  last_at :
      (scs : List (SimbusChannel D N)) (sc : SimbusChannel D N)
      → get_elem? (scs ++ sc ∷ []) (length scs) ≡ some sc
  last_at [] sc = refl
  last_at (x ∷ scs) sc = last_at scs sc

  append-IsWithin :
      (n : ℕ) (scs : List (SimbusChannel D N)) (sc : SimbusChannel D N)
      → IsWithin n sc
      → All (IsWithin n) scs
      → All (IsWithin n) (scs ++ sc ∷ [])
  append-IsWithin n [] sc here h = (here, tt)
  append-IsWithin n (x ∷ scs) sc here h = (h.0, append-IsWithin n scs sc here h.1)

  set-IsWithin :
      (n : ℕ) (scs : List (SimbusChannel D N)) (i : ℕ) (sc : SimbusChannel D N)
      → IsWithin n sc
      → All (IsWithin n) scs
      → All (IsWithin n) (set scs i sc)
  set-IsWithin n [] i sc here h = tt
  set-IsWithin n (x ∷ scs) zero sc here h = (here, h.1)
  set-IsWithin n (x ∷ scs) (suc i) sc here h = (h.0, set-IsWithin n scs i sc here h.1)

  get_simbus_channel-IsWithin :
      (names : NameSet N) (n : ℕ) (scs : List (SimbusChannel D N)) (name : List ℕ)
      → All (IsWithin n) scs
      → let r = get_simbus_channel names scs name in
        All (IsWithin n) r.1 × ((sc : SimbusChannel D N) × (get_elem? r.1 r.0 ≡ some sc))
  unfolding get_simbus_channel
  get_simbus_channel-IsWithin names n scs name h = elim (Option-cases (find_channel name 0 scs)) [
    | inr (i, found) ↦
        let (le, (sc, at)) = found_in name 0 i scs found in
        let from_first : i - 0 ≡ i = omega arith in
        rw (get_simbus_channel, found)
          (h, (sc, subst (λ j. get_elem? scs j ≡ some sc) from_first at))
    | inl absent ↦
        let new : SimbusChannel D N = record {
          name = name;
          signals = names.empty;
          vector = [];
          has_index = false;
          offset = 0;
          length = 0;
        } in
        rw (get_simbus_channel, absent)
          (append-IsWithin n scs new (ends-IsWithin n new (omega arith)) h, (new, last_at scs new))
  ]

grown_size-holds :
    (n : ℕ) (g : DirectIndex)
    → (n ≤ grown_size n g) × (g.offset * item_size + g.length * item_size ≤ grown_size n g)
unfolding grown_size
grown_size-holds n g = (ground arith, ground arith)

unless : {A : Type 0} (b : Bool) (x y : A) → b ≡ false → (if b then x else y) ≡ y
unless b x y e = rw e

module _ {D N : Type 0} (double : Double D) (names : NameSet N) where
  configure-IsWithin :
      (v : Loopback D N) (g : DirectIndex)
      → All (IsWithin v.map_size) v.channels
      → (v' : Loopback D N) × (direct_index_configure double names v g ≡ some v')
        × All (IsWithin v'.map_size) v'.channels
        × (v.map_size ≤ v'.map_size)
  unfolding direct_index_configure place_channel
  configure-IsWithin v g h = elim (Bool-cases (not (length g.signals == g.length))) [
    | inl wrong ↦ (v, rw (direct_index_configure, wrong), h, omega arith)
    | inr right ↦
        let (inside, (sc, at)) = get_simbus_channel-IsWithin names v.map_size v.channels g.name h in
        let (grows, ends) = grown_size-holds v.map_size g in
        let low : g.offset * item_size % 2 ^ 32 ≤ g.offset * item_size = omega arith in
        let placed = place_channel double names g sc in
        let wider =
          IsWithin-grows v.map_size (grown_size v.map_size g)
            (get_simbus_channel names v.channels g.name).1 grows inside in
        (
          record v {
            direct_active = true;
            map_size = grown_size v.map_size g;
            channels =
                set (get_simbus_channel names v.channels g.name).1
                  (get_simbus_channel names v.channels g.name).0 placed;
          },
          rw (direct_index_configure, right, at),
          set-IsWithin (grown_size v.map_size g) (get_simbus_channel names v.channels g.name).1
              (get_simbus_channel names v.channels g.name).0 placed
              (ends-IsWithin (grown_size v.map_size g) placed (omega arith)) wider,
          grows,
        )
  ]

  configure_all-IsWithin :
      (v : Loopback D N) (gs : List DirectIndex)
      → All (IsWithin v.map_size) v.channels
      → (v' : Loopback D N) × (configure_all double names v gs ≡ some v')
        × All (IsWithin v'.map_size) v'.channels
        × (v.map_size ≤ v'.map_size)
  unfolding configure_all
  configure_all-IsWithin v [] h = (v, refl, h, omega arith)
  configure_all-IsWithin v (g ∷ gs) h =
      let (v1, e1, h1, le1) = configure-IsWithin v g h in
      let (v2, e2, h2, le2) = configure_all-IsWithin v1 gs h1 in
      (v2, rw (configure_all, e1) e2, h2, omega arith)

  -- An adapter that is connected for the first time, with any groups for the direct index: the
  -- connect succeeds and the map does not shrink; the four vectors of every channel end within the
  -- map, and follow each other, except in a channel whose length, multiplied by 20, is 2 ^ 32 or
  -- more.
  pub connect-IsWithin :
      (v : Loopback D N) (step_size : D) (groups : List DirectIndex)
      → v.configured ≡ false
      → (v' : Loopback D N) × (connect double names v step_size groups ≡ some v')
        × All (IsWithin v'.map_size) v'.channels
        × (v.map_size ≤ v'.map_size)
  unfolding connect
  connect-IsWithin v step_size groups fresh =
      let (v', e, h, le) =
        configure_all-IsWithin (record v { step_size = step_size; channels = [] }) groups tt in
      (record v' { configured = true }, unless v.configured (some v) _ fresh ∙ rw e, h, le)
