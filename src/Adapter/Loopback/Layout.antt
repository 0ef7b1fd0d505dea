-- ===== src/Adapter/Loopback/Layout.antt =====
-- The direct index: _direct_index_configure(), simbus_vector_lookup() and the places of the four
-- vectors of a channel in the map, of dse/modelc/adapter/adapter_loopb.c. The offset, the length and
-- the names of the signals are those of the SignalGroup.
use dse_modelc.Base.{
  ℕ, ◌+◌, ◌*◌, ◌%◌, ◌^◌, true, not, Option, none, some, List, [], ◌∷◌, map, length, get_elem?, set,
  ltb, ◌==◌, ◌>>=◌, if◌then◌else◌,
}
use dse_modelc.Double.{Double}
use dse_modelc.Adapter.Loopback.{
  SimbusChannel, NameSet, Loopback, get_simbus_channel, find_slot, new_slot,
}

-- The bytes of the map that a signal takes.
abbrev pub item_size : ℕ
item_size = 24

-- A SignalGroup with the label `index: direct`.
pub record DirectIndex : Type 0 where
  pub name : List ℕ
  pub offset : ℕ
  pub length : ℕ
  pub signals : List (List ℕ)

-- Where the vectors of a channel start: the length is a uint32_t, and so are its multiples.
unfoldable pub scalar_offset : {D N : Type 0} → SimbusChannel D N → ℕ
scalar_offset sc = sc.offset

unfoldable pub binary_offset : {D N : Type 0} → SimbusChannel D N → ℕ
binary_offset sc = sc.offset + sc.length * 8 % 2 ^ 32

unfoldable pub length_offset : {D N : Type 0} → SimbusChannel D N → ℕ
length_offset sc = sc.offset + sc.length * 16 % 2 ^ 32

unfoldable pub buffer_size_offset : {D N : Type 0} → SimbusChannel D N → ℕ
buffer_size_offset sc = sc.offset + sc.length * 20 % 2 ^ 32

-- The map grows if the channel ends behind it.
unfoldable pub grown_size : ℕ → DirectIndex → ℕ
grown_size map_size g =
    let map_offset = g.offset * item_size in
    let map_len = g.length * item_size in
    if ltb map_size (map_offset + map_len) then map_offset + map_len else map_size

module _ {D N : Type 0} (double : Double D) (names : NameSet N) where
  -- The channel of a group; its offset is kept in 32 bits.
  unfoldable pub place_channel : DirectIndex → SimbusChannel D N → SimbusChannel D N
  place_channel g sc = record sc {
    offset = g.offset * item_size % 2 ^ 32;
    length = g.length;
    vector = map (new_slot double names) g.signals;
    has_index = true;
  }

  -- A number of signals other than the length is an error, and changes nothing.
  unfoldable pub direct_index_configure : Loopback D N → DirectIndex → Option (Loopback D N)
  direct_index_configure v g =
      if not (length g.signals == g.length)
      then some v
      else let (i, scs) = get_simbus_channel names v.channels g.name in
        (get_elem? scs i >>= (λ sc. some (record v {
          direct_active = true;
          map_size = grown_size v.map_size g;
          channels = set scs i (place_channel g sc);
        })))

  -- adapter_loopb_connect(): the groups are configured once.
  unfoldable pub configure_all : Loopback D N → List DirectIndex → Option (Loopback D N)
  configure_all v [] = some v
  configure_all v (g ∷ gs) = direct_index_configure v g >>= (λ v'. configure_all v' gs)

  unfoldable pub connect : Loopback D N → D → List DirectIndex → Option (Loopback D N)
  connect v step_size groups =
      if v.configured
      then some v
      else (configure_all (record v { step_size = step_size; channels = [] }) groups
          >>= (λ v'. some (record v' { configured = true })))

-- The channel and the index of a signal; without a name, the channel alone. The code adds a
-- channel that is not there.
unfoldable pub vector_lookup :
    {D N : Type 0}
    → NameSet N
    → Loopback D N
    → List ℕ
    → Option (List ℕ)
    → Option (ℕ × Option ℕ) × Loopback D N
vector_lookup names v vname sname =
    let (i, scs) = get_simbus_channel names v.channels vname in
    let v' = record v { channels = scs } in
    (
      elim sname [
        | none ↦ some (i, none)
        | some name ↦
            get_elem? scs i >>= (λ sc. find_slot name 0 sc.vector >>= (λ k. some (i, some k)))
      ],
      v',
    )
