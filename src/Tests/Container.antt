-- ===== src/Tests/Container.antt =====
-- Containers received: two frames, a loop that ends, and one that does not.
use dse_modelc.Base.{
  ℕ, suc, true, false, Bool, length, Option, ◌≤◌, ◌<◌, ◌≡◌, ◌≢◌, refl, some, List, [], ◌∷◌, ◌++◌,
  arith, some_cancel, subst,
}
use dse_modelc.Pdu.{HeaderFormat, PduObject, MPduItem}
use dse_modelc.Pdu.Matrix.{payload_at}
use dse_modelc.Pdu.Container.{header_bytes, be_32}
use dse_modelc.Pdu.Container.Header.{Carries, zeros}
use dse_modelc.Pdu.Container.MapFrom.{Inbox, Run, attempt, map_from}
use dse_modelc.Pdu.Container.MapFrom.Frames.{Frame, encode, store_all, HasNoRx}
use dse_modelc.Pdu.Container.MapFrom.Loop.{map_from-encode}
use dse_modelc.Pdu.Container.MapFrom.Termination.{map_from-ends, map_from-endless}
use dse_modelc.Pdu.Container.MapTo.{Mapping, map_items}
use dse_modelc.Pdu.Container.MapTo.Fill.{chosen}
use dse_modelc.Pdu.Container.MapTo.Received.{map_items-map_from}
use dse_modelc.Tests.Common.{rejecting, rest_object}

abbrev objects : List (PduObject ℕ)
objects = record rest_object { pdu_idx = 1 } ∷ []

abbrev items : List MPduItem
items = record { id = 7; priority = 0; pdu = 0 } ∷ []

abbrev frames : List Frame
frames = (7, 11 ∷ 12 ∷ 13 ∷ []) ∷ (9, []) ∷ []

abbrev inbox : List ℕ → Inbox Unit
inbox payload = record {
  payloads = some payload ∷ some (0 ∷ 0 ∷ []) ∷ [];
  lua = tt;
  payload = payload;
}

items-HasNoRx : HasNoRx rejecting objects items
items-HasNoRx = ((λ o e. subst (λ z. z.rx_ref ≡ 0) (some_cancel e) refl), tt)

frames_example :
    let b = inbox (encode HeaderFormat.short frames ++ zeros 5) in
    map_from rejecting objects 3 HeaderFormat.short items 16 0 b
    ≡ attempt
        (store_all objects items frames b.payloads)
        (λ ps. Run.ended (record b { payloads = ps }))
unfolding Carries header_bytes
frames_example =
    map_from-encode rejecting objects HeaderFormat.short items frames [] 5
      (inbox (encode HeaderFormat.short frames ++ zeros 5)) items-HasNoRx
      ((omega arith, omega arith, omega arith), ((omega arith, omega arith, omega arith), tt)) refl
      (omega arith)

ends_example :
    map_from rejecting objects 5 HeaderFormat.short items 4 0 (inbox (1 ∷ 2 ∷ 3 ∷ 255 ∷ []))
    ≢ Run.running
ends_example =
    map_from-ends rejecting objects 4 items 4 0 (inbox (1 ∷ 2 ∷ 3 ∷ 255 ∷ []))
      (omega arith, (omega arith, (omega arith, (omega arith, tt)))) (omega arith) (omega arith)

endless_example :
    map_from rejecting objects 1000 HeaderFormat.full items 8 0
      (inbox (0 ∷ 0 ∷ 0 ∷ 3 ∷ 255 ∷ 255 ∷ 255 ∷ 248 ∷ []))
    ≡ Run.running
unfolding be_32
endless_example =
    map_from-endless rejecting objects 1000 items 0 0 0 3 []
      (inbox (0 ∷ 0 ∷ 0 ∷ 3 ∷ 255 ∷ 255 ∷ 255 ∷ 248 ∷ [])) (omega arith) (omega arith, tt) refl
      (omega arith)

-- Three I-PDUs, the second of which does not need Tx; the container has no room for the third.
abbrev sent : ℕ → PduObject ℕ
sent idx = record rest_object { pdu_idx = idx; needs_tx = true }

abbrev mapping : Mapping ℕ Unit
mapping = record {
  pdus = sent 0 ∷ record rest_object { pdu_idx = 1 } ∷ sent 2 ∷ [];
  payloads = some (11 ∷ 12 ∷ []) ∷ some (21 ∷ 22 ∷ []) ∷ some (31 ∷ 32 ∷ []) ∷ [];
  lua = tt;
  payload = zeros 9;
  payload_offset = 0;
  needs_tx = false;
}

abbrev sent_items : List MPduItem
sent_items =
    record { id = 7; priority = 0; pdu = 0 }
    ∷ record { id = 8; priority = 1; pdu = 1 }
    ∷ record { id = 9; priority = 2; pdu = 2 }
    ∷ []

abbrev offered : List (Bool × Frame)
offered = (true, (7, 11 ∷ 12 ∷ [])) ∷ (false, (8, 21 ∷ 22 ∷ [])) ∷ (true, (9, 31 ∷ 32 ∷ [])) ∷ []

abbrev empty : List (Option (List ℕ))
empty = some (0 ∷ []) ∷ some (0 ∷ 0 ∷ []) ∷ []

carried : (id : ℕ) → 1 ≤ id → id < 16777216 → Carries HeaderFormat.short id 2
unfolding Carries
carried id low high = (low, high, omega arith)

received_example :
    let gs = chosen rejecting HeaderFormat.short 9 9 offered in
    (m' : Mapping ℕ Unit) × (map_items rejecting HeaderFormat.short 9 sent_items mapping ≡ some m')
    × (map_from rejecting objects
          (suc (length gs))
          HeaderFormat.short
          items
          9
          0
          (record { payloads = empty; lua = tt; payload = m'.payload })
        ≡ attempt
            (store_all objects items gs empty)
            (λ ps. Run.ended (record { payloads = ps; lua = tt; payload = m'.payload })))
unfolding payload_at
received_example =
    map_items-map_from rejecting rejecting HeaderFormat.short 9 sent_items offered mapping objects
      items empty tt refl refl
      (
        (sent 0, refl, refl, refl, refl, refl, refl, carried 7 (omega arith) (omega arith)),
        (
          (
            record rest_object { pdu_idx = 1 },
            refl,
            refl,
            refl,
            refl,
            refl,
            refl,
            carried 8 (omega arith) (omega arith),
          ),
          ((sent 2, refl, refl, refl, refl, refl, refl, carried 9 (omega arith) (omega arith)), tt),
        ),
      )
      (((λ e. omega arith), ((λ e. omega arith), tt)), (((λ e. omega arith), tt), (tt, tt)))
      items-HasNoRx (omega arith)
