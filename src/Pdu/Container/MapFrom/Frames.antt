-- ===== src/Pdu/Container/MapFrom/Frames.antt =====
-- What a container delivers: the frames that were written into it, in order, and the end behind the
-- last of them.
use dse_modelc.Base.{
  ℕ, zero, suc, ◌+◌, ◌≤◌, ◌≡◌, refl, sym, ap, inl, inr, true, false, Option, some, List, [], ◌∷◌,
  ◌++◌, arith, All, Bool-cases, Option-cases, length, length-append, drop-append, get_elem?, set,
  take, ltb, leb, ◌==◌, ◌>>=◌,
}
use dse_modelc.Pdu.{HeaderFormat, MPduItem, PduObject}
use dse_modelc.Pdu.Script.{Scripts}
use dse_modelc.Pdu.Matrix.{payload_at}
use dse_modelc.Pdu.Container.{header_bytes, write_bytes, read_bytes}
use dse_modelc.Pdu.Container.MapFrom.{Inbox, call_rx_func, copy_pdu, copy_len, deliver}

-- An I-PDU as it lies in a container.
abbrev pub Frame : Type 0
Frame = ℕ × List ℕ

abbrev pub frame_bytes : HeaderFormat → Frame → List ℕ
frame_bytes format (id, bytes) = header_bytes format id (length bytes) ++ bytes

abbrev pub encode : HeaderFormat → List Frame → List ℕ
encode format [] = []
encode format (f ∷ fs) = frame_bytes format f ++ encode format fs

module _ {D : Type 0} (pdus : List (PduObject D)) where
  -- A frame goes to the first I-PDU of its identifier, whose payload keeps its length: what the
  -- frame has too much is left out, and what it lacks stays.
  abbrev pub store :
      List MPduItem → Frame → List (Option (List ℕ)) → Option (List (Option (List ℕ)))
  store [] (id, bytes) payloads = some payloads
  store (i ∷ is) (id, bytes) payloads = elim (i.id == id) [
    | false ↦ store is (id, bytes) payloads
    | true ↦ get_elem? pdus i.pdu >>= (λ o. payload_at payloads o.pdu_idx >>= (λ old.
        write_bytes old 0 (take o.item.length bytes)
        >>= (λ new. some (set payloads o.pdu_idx (some new)))))
  ]

  abbrev pub store_all :
      List MPduItem → List Frame → List (Option (List ℕ)) → Option (List (Option (List ℕ)))
  store_all is [] payloads = some payloads
  store_all is (f ∷ fs) payloads = store is f payloads >>= store_all is fs

module _ {D L : Type 0} (scripts : Scripts D L) (pdus : List (PduObject D)) where
  -- The I-PDUs of the container have no Rx function.
  abbrev pub HasNoRx : List MPduItem → Type 0
  HasNoRx = All (λ i. (o : PduObject D) → get_elem? pdus i.pdu ≡ some o → o.rx_ref ≡ 0)

take_all : (xs : List ℕ) → take (length xs) xs ≡ xs
take_all [] = refl
take_all (x ∷ xs) = ap (λ zs. x ∷ zs) (take_all xs)

take_more : (n : ℕ) (xs : List ℕ) → length xs ≤ n → take n xs ≡ xs
take_more zero [] h = refl
take_more zero (x ∷ xs) h = absurd (omega arith)
take_more (suc n) [] h = refl
take_more (suc n) (x ∷ xs) h = ap (λ zs. x ∷ zs) (take_more n xs (omega arith))

take-append : (n : ℕ) (xs ys : List ℕ) → n ≤ length xs → take n (xs ++ ys) ≡ take n xs
take-append zero xs ys h = refl
take-append (suc n) [] ys h = absurd (omega arith)
take-append (suc n) (x ∷ xs) ys h = ap (λ zs. x ∷ zs) (take-append n xs ys (omega arith))

read_frame :
    (before bytes after : List ℕ) (n : ℕ)
    → n ≤ length bytes
    → read_bytes (before ++ (bytes ++ after)) (length before) n ≡ some (take n bytes)
unfolding read_bytes
read_frame before bytes after n h =
    let fits : leb (length before + n) (length (before ++ (bytes ++ after))) ≡ true =
      ground (arith, length-append before (bytes ++ after), length-append bytes after) in
    rw (fits, drop-append before (bytes ++ after), take-append n bytes after h)

module _ {D L : Type 0} (scripts : Scripts D L) (pdus : List (PduObject D)) where
  copy_len-take :
      (o : PduObject D) (bytes : List ℕ)
      → (copy_len scripts pdus o (length bytes) ≤ length bytes)
        × (take (copy_len scripts pdus o (length bytes)) bytes ≡ take o.item.length bytes)
  copy_len-take o bytes = elim (Bool-cases (ltb (length bytes) o.item.length)) [
    | inl e ↦ (
      rw e (omega arith),
      rw (e, take_all bytes) (sym (take_more o.item.length bytes (ground arith))),
    )
    | inr e ↦ (rw e (ground arith), rw e)
  ]

  -- memcpy() takes the part of the frame that the payload of the I-PDU has room for.
  copy_frame :
      (o : PduObject D) (before bytes after : List ℕ) (b : Inbox L)
      → b.payload ≡ before ++ (bytes ++ after)
      → copy_pdu scripts pdus o (length before) (length bytes) b ≡ (
          payload_at b.payloads o.pdu_idx >>= (λ old.
            write_bytes old 0 (take o.item.length bytes)
            >>= (λ new. some (record b { payloads = set b.payloads o.pdu_idx (some new) }))))
  unfolding copy_pdu
  copy_frame o before bytes after b e =
      let (fits, same) = copy_len-take o bytes in
      rw (e, read_frame before bytes after (copy_len scripts pdus o (length bytes)) fits, same)

  plain_rx :
      (o : PduObject D) (offset len : ℕ) (b : Inbox L)
      → o.rx_ref ≡ 0
      → call_rx_func scripts pdus o offset len b ≡ some (true, b)
  unfolding call_rx_func
  plain_rx o offset len b e = rw e

  -- One frame: its offset in the container does not matter.
  pub deliver_frame :
      (is : List MPduItem) (id : ℕ) (before bytes after : List ℕ) (b : Inbox L)
      → HasNoRx scripts pdus is
      → b.payload ≡ before ++ (bytes ++ after)
      → deliver scripts pdus is id (length before) (length bytes) b
        ≡ (store pdus is (id, bytes) b.payloads >>= (λ ps. some (record b { payloads = ps })))
  unfolding deliver
  deliver_frame [] id before bytes after b h e = refl
  deliver_frame (i ∷ is) id before bytes after b h e = elim (Bool-cases (i.id == id)) [
    | inl m ↦ elim (Option-cases (get_elem? pdus i.pdu)) [
      | inl n ↦ rw (m, n, deliver, store)
      | inr (o, g) ↦
          rw
            (
              m,
              g,
              deliver,
              store,
              plain_rx o (length before) (length bytes) b (h.0 o g),
              copy_frame o before bytes after b e,
            )
            (stored o)
    ]
    | inr m ↦ rw (m, deliver, store) (deliver_frame is id before bytes after b h.1 e)
  ]
    where
      stored :
          (o : PduObject D)
          → (payload_at b.payloads o.pdu_idx >>= (λ old.
              write_bytes old 0 (take o.item.length bytes)
              >>= (λ new. some (record b { payloads = set b.payloads o.pdu_idx (some new) }))))
            ≡ ((payload_at b.payloads o.pdu_idx >>= (λ old.
                  write_bytes old 0 (take o.item.length bytes)
                  >>= (λ new. some (set b.payloads o.pdu_idx (some new)))))
                >>= (λ ps. some (record b { payloads = ps })))
      stored o = elim (Option-cases (payload_at b.payloads o.pdu_idx)) [
        | inl n ↦ rw n
        | inr (old, n) ↦ elim (Option-cases (write_bytes old 0 (take o.item.length bytes))) [
          | inl k ↦ rw (n, k)
          | inr (new, k) ↦ rw (n, k)
        ]
      ]
