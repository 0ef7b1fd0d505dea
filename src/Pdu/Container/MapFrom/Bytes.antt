-- ===== src/Pdu/Container/MapFrom/Bytes.antt =====
-- The container's payload stays a list of bytes while its I-PDUs are received.
use dse_modelc.Base.{
  ℕ, zero, suc, ◌+◌, ◌-◌, ◌<◌, ◌≡◌, ap, inl, inr, Bool, true, false, Option, some, List, [], ◌∷◌,
  ◌++◌, arith, Bool-cases, length, some_cancel, none≢some, bind_some, subst, get_elem?, set, take,
  drop, leb, ◌==◌, ◌>>=◌,
}
use dse_modelc.Word.{u32, IsBytes}
use dse_modelc.Pdu.{HeaderFormat, MPduItem, PduObject}
use dse_modelc.Pdu.Script.{Scripts}
use dse_modelc.Pdu.Matrix.{payload_at}
use dse_modelc.Pdu.Container.{read_header, read_bytes, write_bytes, be_24}
use dse_modelc.Pdu.Container.MapFrom.{Inbox, call_rx_func, after_rx, copy_pdu, copy_len, deliver}

IsBytes-get : (xs : List ℕ) (i x : ℕ) → IsBytes xs → get_elem? xs i ≡ some x → x < 256
IsBytes-get [] i x h e = absurd (ground arith)
IsBytes-get (y ∷ xs) zero x h e = subst (λ z. z < 256) (some_cancel e) h.0
IsBytes-get (y ∷ xs) (suc i) x h e = IsBytes-get xs i x h.1 e

IsBytes-append : (xs ys : List ℕ) → IsBytes xs → IsBytes ys → IsBytes (xs ++ ys)
IsBytes-append [] ys h k = k
IsBytes-append (x ∷ xs) ys h k = (h.0, IsBytes-append xs ys h.1 k)

IsBytes-take : (n : ℕ) (xs : List ℕ) → IsBytes xs → IsBytes (take n xs)
IsBytes-take zero xs h = tt
IsBytes-take (suc n) [] h = tt
IsBytes-take (suc n) (x ∷ xs) h = (h.0, IsBytes-take n xs h.1)

IsBytes-drop : (n : ℕ) (xs : List ℕ) → IsBytes xs → IsBytes (drop n xs)
IsBytes-drop zero xs h = h
IsBytes-drop (suc n) [] h = tt
IsBytes-drop (suc n) (x ∷ xs) h = IsBytes-drop n xs h.1

write_bytes-IsBytes :
    (xs ys zs : List ℕ) (i : ℕ)
    → IsBytes xs
    → IsBytes ys
    → write_bytes xs i ys ≡ some zs
    → IsBytes zs
unfolding write_bytes
write_bytes-IsBytes xs ys zs i h k e = elim (Bool-cases (leb (i + length ys) (length xs))) [
  | inl fits ↦ subst IsBytes (some_cancel (rw (write_bytes, fits) at e)) (
      IsBytes-append (take i xs) (ys ++ drop (i + length ys) xs) (IsBytes-take i xs h)
        (IsBytes-append ys (drop (i + length ys) xs) k (IsBytes-drop (i + length ys) xs h)))
  | inr over ↦ absurd (none≢some (rw (write_bytes, over) at e))
]

read_bytes-IsBytes :
    (xs ys : List ℕ) (i n : ℕ) → IsBytes xs → read_bytes xs i n ≡ some ys → IsBytes ys
unfolding read_bytes
read_bytes-IsBytes xs ys i n h e = elim (Bool-cases (leb (i + n) (length xs))) [
  | inl fits ↦
      subst IsBytes (some_cancel (rw (read_bytes, fits) at e))
        (IsBytes-take n (drop i xs) (IsBytes-drop i xs h))
  | inr over ↦ absurd (none≢some (rw (read_bytes, over) at e))
]

pub short_length :
    (payload : List ℕ) (n offset : ℕ) (h : ℕ × ℕ)
    → IsBytes payload
    → read_header HeaderFormat.short payload n offset ≡ some h
    → h.1 < 256
unfolding read_header
short_length payload n offset h bytes e = elim (Bool-cases (leb 4 (n - offset))) [
  | inl room ↦
      let (a, _, e1) =
        bind_some (get_elem? payload (offset + 0))
          (λ a. do
            b ← get_elem? payload (offset + 1)
            c ← get_elem? payload (offset + 2)
            m ← get_elem? payload (offset + 3)
            some (be_24 a b c, m))
          (rw (read_header, room) at e) in
      let (b, _, e2) =
        bind_some (get_elem? payload (offset + 1))
          (λ b. do
            c ← get_elem? payload (offset + 2)
            m ← get_elem? payload (offset + 3)
            some (be_24 a b c, m))
          e1 in
      let (c, _, e3) =
        bind_some (get_elem? payload (offset + 2))
          (λ c. get_elem? payload (offset + 3) >>= (λ m. some (be_24 a b c, m))) e2 in
      let (m, found, e4) =
        bind_some (get_elem? payload (offset + 3)) (λ m. some (be_24 a b c, m)) e3 in
      subst (λ z. z.1 < 256) (some_cancel e4) (IsBytes-get payload (offset + 3) m bytes found)
  | inr full ↦ subst (λ z. z.1 < 256) (some_cancel (rw (read_header, full) at e)) (omega arith)
]

module _ {D L : Type 0} (scripts : Scripts D L) (pdus : List (PduObject D)) where
  call_rx_func-IsBytes :
      (o : PduObject D) (offset len : ℕ) (b : Inbox L) (r : Bool × Inbox L)
      → IsBytes b.payload
      → call_rx_func scripts pdus o offset len b ≡ some r
      → IsBytes r.1.payload
  unfolding call_rx_func
  call_rx_func-IsBytes o offset len b r h e = elim (Bool-cases (o.rx_ref == 0)) [
    | inl plain ↦ subst (λ z. IsBytes z.1.payload) (some_cancel (rw (call_rx_func, plain) at e)) h
    | inr script ↦
        let (bytes, read, called) =
          bind_some (read_bytes b.payload offset (u32 len))
            (λ bytes. after_rx scripts pdus offset b (scripts.pdu_call b.lua o.rx_ref bytes))
            (rw (call_rx_func, script) at e) in
        let (payload, written, same) =
          bind_some (write_bytes b.payload offset (scripts.pdu_call b.lua o.rx_ref bytes).payload)
            (λ payload. some (
              (scripts.pdu_call b.lua o.rx_ref bytes).accepted,
              record b { lua = (scripts.pdu_call b.lua o.rx_ref bytes).lua; payload = payload },
            ))
            called in
        subst (λ z. IsBytes z.1.payload) (some_cancel same)
          (write_bytes-IsBytes b.payload (scripts.pdu_call b.lua o.rx_ref bytes).payload payload
            offset h
            (scripts.bytes_kept b.lua o.rx_ref bytes
              (read_bytes-IsBytes b.payload bytes offset (u32 len) h read))
            written)
  ]

  -- What deliver() does after the Rx function.
  abbrev after_rx_func : List MPduItem → ℕ → ℕ → ℕ → PduObject D → Bool × Inbox L → Option (Inbox L)
  after_rx_func is id offset len o r = elim r.0 [
    | false ↦ deliver scripts pdus is id offset len r.1
    | true ↦ copy_pdu scripts pdus o offset len r.1
  ]

  copy_pdu-payload :
      (o : PduObject D) (offset len : ℕ) (b b' : Inbox L)
      → copy_pdu scripts pdus o offset len b ≡ some b'
      → b.payload ≡ b'.payload
  unfolding copy_pdu
  copy_pdu-payload o offset len b b' e =
      let (old, _, read) =
        bind_some (payload_at b.payloads o.pdu_idx)
          (λ old. do
            bytes ← read_bytes b.payload offset (copy_len scripts pdus o len)
            new ← write_bytes old 0 bytes
            some (record b { payloads = set b.payloads o.pdu_idx (some new) }))
          e in
      let (bytes, _, write) =
        bind_some (read_bytes b.payload offset (copy_len scripts pdus o len))
          (λ bytes. do
            new ← write_bytes old 0 bytes
            some (record b { payloads = set b.payloads o.pdu_idx (some new) }))
          read in
      let (new, _, last) =
        bind_some (write_bytes old 0 bytes)
          (λ new. some (record b { payloads = set b.payloads o.pdu_idx (some new) })) write in
      ap (λ z. z.payload) (some_cancel last)

  after_rx_func-IsBytes :
      (is : List MPduItem) (id offset len : ℕ) (o : PduObject D) (r : Bool × Inbox L) (b' : Inbox L)
      → ((b : Inbox L)
          → IsBytes b.payload
          → deliver scripts pdus is id offset len b ≡ some b'
          → IsBytes b'.payload)
      → IsBytes r.1.payload
      → after_rx_func is id offset len o r ≡ some b'
      → IsBytes b'.payload
  after_rx_func-IsBytes is id offset len o (false, b) b' later h e = later b h e
  after_rx_func-IsBytes is id offset len o (true, b) b' later h e =
      subst IsBytes (copy_pdu-payload o offset len b b' e) h

  pub deliver-IsBytes :
      (is : List MPduItem) (id offset len : ℕ) (b b' : Inbox L)
      → IsBytes b.payload
      → deliver scripts pdus is id offset len b ≡ some b'
      → IsBytes b'.payload
  unfolding deliver
  deliver-IsBytes [] id offset len b b' h e = subst (λ z. IsBytes z.payload) (some_cancel e) h
  deliver-IsBytes (i ∷ is) id offset len b b' h e = elim (Bool-cases (i.id == id)) [
    | inl hit ↦
        let (o, _, called) =
          bind_some (get_elem? pdus i.pdu)
            (λ o. call_rx_func scripts pdus o offset len b >>= after_rx_func is id offset len o)
            (rw (deliver, hit) at e) in
        let (r, rx, left) =
          bind_some (call_rx_func scripts pdus o offset len b) (after_rx_func is id offset len o)
            called in
        after_rx_func-IsBytes is id offset len o r b'
          (λ b1 h1 e1. deliver-IsBytes is id offset len b1 b' h1 e1)
          (call_rx_func-IsBytes o offset len b r h rx) left
    | inr miss ↦ deliver-IsBytes is id offset len b b' h (rw (deliver, miss) at e)
  ]
