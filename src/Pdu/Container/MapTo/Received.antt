-- ===== src/Pdu/Container/MapTo/Received.antt =====
-- A container that is sent is received.
use dse_modelc.Base.{
  ℕ, suc, ◌+◌, ◌<◌, ◌^◌, ◌≡◌, ap, subst, sym, ◌∙◌, Bool, Option, some, List, [], arith, length,
  length-append, length-replicate,
}
use dse_modelc.Pdu.{HeaderFormat, MPduItem, PduObject}
use dse_modelc.Pdu.Script.{Scripts}
use dse_modelc.Pdu.Container.Header.{zeros}
use dse_modelc.Pdu.Container.MapFrom.{Inbox, Run, attempt, map_from}
use dse_modelc.Pdu.Container.MapFrom.Frames.{Frame, encode, store_all, HasNoRx}
use dse_modelc.Pdu.Container.MapFrom.Loop.{map_from-encode}
use dse_modelc.Pdu.Container.MapTo.{Mapping, map_items}
use dse_modelc.Pdu.Container.MapTo.Fill.{OffersAll, AreDistinct, chosen}
use dse_modelc.Pdu.Container.MapTo.Chosen.{map_items-chosen, chosen-Carries}

-- What is sent in a container is received. The I-PDUs of a container that is all zeros are other
-- PDUs each, have no Tx function and a payload of their length, and an identifier and a length that
-- the header format can carry; the container is shorter than 2 ^ 64 bytes. Then the loop over the
-- I-PDUs succeeds, and a receiver, with any PDUs and any list of I-PDUs without an Rx function, that
-- gets the payload it leaves, ends and has stored exactly the chosen I-PDUs, in order: each that
-- needs Tx and fits, with its header, what those chosen before it leave; or it faults where storing
-- them so does.
pub map_items-map_from :
    {D L D' L' : Type 0} (scripts : Scripts D L) (scripts' : Scripts D' L') (format : HeaderFormat)
    (payload_len : ℕ) (is : List MPduItem) (xs : List (Bool × Frame)) (m : Mapping D L)
    (pdus : List (PduObject D')) (rs : List MPduItem) (payloads : List (Option (List ℕ))) (lua : L')
    → m.payload ≡ zeros payload_len
    → m.payload_offset ≡ 0
    → OffersAll scripts format payload_len m is xs
    → AreDistinct scripts format payload_len is
    → HasNoRx scripts' pdus rs
    → payload_len < 2 ^ 64
    → let gs = chosen scripts format payload_len payload_len xs in
      (m' : Mapping D L) × (map_items scripts format payload_len is m ≡ some m')
      × (map_from scripts' pdus
            (suc (length gs))
            format
            rs
            payload_len
            0
            (record { payloads = payloads; lua = lua; payload = m'.payload })
          ≡ attempt
              (store_all pdus rs gs payloads)
              (λ ps. Run.ended (record { payloads = ps; lua = lua; payload = m'.payload })))
map_items-map_from {L' = L'} scripts scripts' format payload_len is xs m pdus rs payloads lua
      zero_bytes start offers distinct no_rx w =
    let (m', n', run, (text, offset, whole)) =
      map_items-chosen scripts format payload_len is xs [] payload_len m offers distinct
        (zero_bytes, start, omega arith) in
    let gs = chosen scripts format payload_len payload_len xs in
    let len : length m'.payload ≡ payload_len =
      ap length text
      ∙ length-append (encode format gs) (zeros n')
      ∙ ap (λ k. length (encode format gs) + k) (length-replicate n' 0)
      ∙ sym whole in
    let b : Inbox L' = record { payloads = payloads; lua = lua; payload = m'.payload } in
    let received =
      map_from-encode scripts' pdus format rs gs [] n' b no_rx
        (chosen-Carries scripts format payload_len is xs payload_len m offers) text (omega arith) in
    (
      m',
      run,
      subst
          (λ k.
            map_from scripts' pdus (suc (length gs)) format rs k 0 b
            ≡ attempt (store_all pdus rs gs payloads)
                (λ ps. Run.ended (record b { payloads = ps })))
          len received,
    )
