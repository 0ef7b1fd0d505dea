-- ===== src/Pdu/Container/Header.antt =====
-- The header of an I-PDU in a container: what is read is what was written.
use dse_modelc.Base.{
  ℕ, zero, suc, ◌+◌, ◌*◌, ◌/◌, ◌≤◌, ◌<◌, ◌^◌, ◌-◌, ◌≡◌, refl, ap, ◌∙◌, true, false, some, List, [],
  ◌∷◌, ◌++◌, arith, length, length-append, length-replicate, replicate, dec_lt, get_elem?, leb,
}
use Prim.Native.Nat.{bit_or}
use dse_modelc.Word.{u8, bit_or_comm, bit_or-above}
use dse_modelc.Pdu.{HeaderFormat}
use dse_modelc.Pdu.Container.{header_length, header_bytes, be_24, be_32, extend_sign, read_header}

pub length-header_bytes :
    (format : HeaderFormat) (id len : ℕ)
    → length (header_bytes format id len) ≡ header_length format
unfolding header_bytes
length-header_bytes HeaderFormat.none id len = refl
length-header_bytes HeaderFormat.static id len = refl
length-header_bytes HeaderFormat.short id len = refl
length-header_bytes HeaderFormat.full id len = refl

pub get_elem?-append :
    {A : Type 0} (xs ys : List A) (i : ℕ) → get_elem? (xs ++ ys) (length xs + i) ≡ get_elem? ys i
get_elem?-append [] ys i = ap (get_elem? ys) (omega arith)
get_elem?-append (x ∷ xs) ys i =
    let step : suc (length xs) + i ≡ suc (length xs + i) = omega arith in
    rw step (get_elem?-append xs ys i)

-- `|` of a number shifted left and one below it is their sum.
or_low : (a s c : ℕ) → c < 2 ^ s → bit_or (a * 2 ^ s) c ≡ a * 2 ^ s + c
or_low a s c h = omega (arith, bit_or_comm (a * 2 ^ s) c, bit_or-above s c a h)

pub be_24-sum : (a b c : ℕ) → b < 256 → c < 256 → be_24 a b c ≡ a * 65536 + b * 256 + c
unfolding be_24
be_24-sum a b c hb hc =
    let ab = or_low a 16 (b * 256) (omega arith) in
    let whole : a * 65536 + b * 256 ≡ (a * 256 + b) * 2 ^ 8 = omega arith in
    let abc = or_low (a * 256 + b) 8 c hc in rw (ab, whole, abc) (omega arith)

pub be_32-sum :
    (a b c d : ℕ)
    → b < 256
    → c < 256
    → d < 256
    → be_32 a b c d ≡ a * 16777216 + b * 65536 + c * 256 + d
unfolding be_32
be_32-sum a b c d hb hc hd =
    let ab = or_low a 24 (b * 65536) (omega arith) in
    let whole : a * 16777216 + b * 65536 ≡ (a * 256 + b) * 2 ^ 16 = omega arith in
    let abc = or_low (a * 256 + b) 16 (c * 256) (omega arith) in
    let whole' : (a * 256 + b) * 2 ^ 16 + c * 256 ≡ ((a * 256 + b) * 256 + c) * 2 ^ 8 =
      omega arith in
    let abcd = or_low ((a * 256 + b) * 256 + c) 8 d hd in
    rw (ab, whole, abc, whole', abcd) (omega arith)

-- The identifiers and lengths that a header holds; 0 marks the end of the container.
unfoldable pub Carries : HeaderFormat → ℕ → ℕ → Type 0
Carries HeaderFormat.short id len = (1 ≤ id) × (id < 16777216) × (len < 256)
Carries HeaderFormat.full id len = (1 ≤ id) × (id < 4294967296) × (len < 2147483648)
Carries _ id len = ¬ Unit

room :
    (before head after : List ℕ)
    → leb (length head) (length (before ++ (head ++ after)) - length before) ≡ true
room before head after =
    ground (arith, length-append before (head ++ after), length-append head after)

byte_behind :
    (before head after : List ℕ) (i : ℕ) {x : ℕ}
    → get_elem? (head ++ after) i ≡ some x
    → get_elem? (before ++ (head ++ after)) (length before + i) ≡ some x
byte_behind before head after i e = get_elem?-append before (head ++ after) i ∙ e

read_short :
    (before after : List ℕ) (a b c n : ℕ)
    → let payload = before ++ ((a ∷ b ∷ c ∷ n ∷ []) ++ after) in
      read_header HeaderFormat.short payload (length payload) (length before)
      ≡ some (be_24 a b c, n)
unfolding read_header
read_short before after a b c n =
    let head = a ∷ b ∷ c ∷ n ∷ [] in
    rw (
      room before head after,
      byte_behind before head after 0 {x = a} refl,
      byte_behind before head after 1 {x = b} refl,
      byte_behind before head after 2 {x = c} refl,
      byte_behind before head after 3 {x = n} refl,
    )

pub read_full :
    (before after : List ℕ) (a b c d k l m n : ℕ)
    → let payload = before ++ ((a ∷ b ∷ c ∷ d ∷ k ∷ l ∷ m ∷ n ∷ []) ++ after) in
      read_header HeaderFormat.full payload (length payload) (length before)
      ≡ some (be_32 a b c d, extend_sign (be_32 k l m n))
unfolding read_header
read_full before after a b c d k l m n =
    let head = a ∷ b ∷ c ∷ d ∷ k ∷ l ∷ m ∷ n ∷ [] in
    rw (
      room before head after,
      byte_behind before head after 0 {x = a} refl,
      byte_behind before head after 1 {x = b} refl,
      byte_behind before head after 2 {x = c} refl,
      byte_behind before head after 3 {x = d} refl,
      byte_behind before head after 4 {x = k} refl,
      byte_behind before head after 5 {x = l} refl,
      byte_behind before head after 6 {x = m} refl,
      byte_behind before head after 7 {x = n} refl,
    )

short_id : (id : ℕ) → id < 16777216 → be_24 (u8 (id / 2 ^ 16)) (u8 (id / 2 ^ 8)) (u8 id) ≡ id
short_id id h =
    rw (be_24-sum (u8 (id / 2 ^ 16)) (u8 (id / 2 ^ 8)) (u8 id) (omega arith) (omega arith))
      (omega arith)

full_id :
    (id : ℕ)
    → id < 4294967296
    → be_32 (u8 (id / 2 ^ 24)) (u8 (id / 2 ^ 16)) (u8 (id / 2 ^ 8)) (u8 id) ≡ id
full_id id h =
    rw
      (be_32-sum (u8 (id / 2 ^ 24)) (u8 (id / 2 ^ 16)) (u8 (id / 2 ^ 8)) (u8 id) (omega arith)
        (omega arith) (omega arith))
      (omega arith)

sign_positive : (x : ℕ) → x < 2147483648 → extend_sign x ≡ x
unfolding extend_sign
sign_positive x h = ground arith

pub Carries-positive :
    (format : HeaderFormat) (id len : ℕ)
    → Carries format id len
    → (1 ≤ id) × (1 ≤ header_length format)
unfolding Carries
Carries-positive HeaderFormat.none id len h = absurd (h tt)
Carries-positive HeaderFormat.static id len h = absurd (h tt)
Carries-positive HeaderFormat.short id len h = (h.0, omega arith)
Carries-positive HeaderFormat.full id len h = (h.0, omega arith)

-- What is read from behind some bytes is the identifier and the length that were written there.
pub read_header-header_bytes :
    (format : HeaderFormat) (before after : List ℕ) (id len : ℕ)
    → Carries format id len
    → read_header format
        (before ++ (header_bytes format id len ++ after))
        (length (before ++ (header_bytes format id len ++ after)))
        (length before)
      ≡ some (id, len)
unfolding Carries header_bytes read_header extend_sign
read_header-header_bytes HeaderFormat.short before after id len (_, hi, hl) =
    let small : u8 len ≡ len = omega arith in
    read_short before after (u8 (id / 2 ^ 16)) (u8 (id / 2 ^ 8)) (u8 id) (u8 len)
    ∙ rw (short_id id hi, small)
read_header-header_bytes HeaderFormat.full before after id len (_, hi, hl) =
    read_full before after (u8 (id / 2 ^ 24)) (u8 (id / 2 ^ 16)) (u8 (id / 2 ^ 8)) (u8 id)
      (u8 (len / 2 ^ 24)) (u8 (len / 2 ^ 16)) (u8 (len / 2 ^ 8)) (u8 len)
    ∙ rw (full_id id hi, full_id len (omega arith), sign_positive len hl)
read_header-header_bytes HeaderFormat.none before after id len h = absurd (h tt)
read_header-header_bytes HeaderFormat.static before after id len h = absurd (h tt)

abbrev pub zeros : ℕ → List ℕ
zeros n = replicate n 0

pub zeros_split : (k n : ℕ) → k ≤ n → zeros n ≡ zeros k ++ zeros (n - k)
zeros_split zero n h = ap (λ m. zeros m) (omega arith)
zeros_split (suc k) zero h = absurd (omega arith)
zeros_split (suc k) (suc n) h =
    let same : suc n - suc k ≡ n - k = omega arith in
    rw same (ap (λ zs. 0 ∷ zs) (zeros_split k n (omega arith)))

no_room :
    (k n : ℕ) (before : List ℕ) → n < k → leb k (length (before ++ zeros n) - length before) ≡ false
no_room k n before h = ground (arith, length-append before (zeros n), length-replicate {A = ℕ} n 0)

-- Behind the last frame the identifier that is read is 0, whether a header fits or not.
pub read_header-zeros :
    (format : HeaderFormat) (before : List ℕ) (n : ℕ)
    → let payload = before ++ zeros n in
      read_header format payload (length payload) (length before) ≡ some (0, 0)
unfolding read_header be_24 be_32
read_header-zeros HeaderFormat.none before n = refl
read_header-zeros HeaderFormat.static before n = refl
read_header-zeros HeaderFormat.short before n = elim (dec_lt n 4) [
  | yes h ↦ rw (no_room 4 n before h)
  | no h ↦ rw (zeros_split 4 n (omega arith)) (read_short before (zeros (n - 4)) 0 0 0 0)
]
read_header-zeros HeaderFormat.full before n = elim (dec_lt n 8) [
  | yes h ↦ rw (no_room 8 n before h)
  | no h ↦ rw (zeros_split 8 n (omega arith)) (
      read_full before (zeros (n - 8)) 0 0 0 0 0 0 0 0
      ∙ ap (λ x. some (0, x)) (sign_positive 0 (omega arith)))
]
