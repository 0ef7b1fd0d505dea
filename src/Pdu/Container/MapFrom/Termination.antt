-- ===== src/Pdu/Container/MapFrom/Termination.antt =====
-- When the loop over a received container ends.
use dse_modelc.Base.{
  ℕ, zero, suc, ◌+◌, ◌-◌, ◌≤◌, ◌<◌, ◌^◌, ◌≡◌, ◌≢◌, refl, sym, ◌∙◌, inl, inr, Bool, true, false,
  ◌||◌, Option, none, some, List, [], ◌∷◌, arith, All, Bool-cases, Option-cases, length, ltb, ◌==◌,
}
use dse_modelc.Word.{u64, IsBytes}
use dse_modelc.Pdu.{HeaderFormat, MPduItem, PduObject}
use dse_modelc.Pdu.Script.{Scripts}
use dse_modelc.Pdu.Container.{read_header, be_32, extend_sign}
use dse_modelc.Pdu.Container.Header.{read_full}
use dse_modelc.Pdu.Container.MapFrom.Bytes.{short_length, deliver-IsBytes}
use dse_modelc.Pdu.Container.MapFrom.Loop.{map_header, map_past}
use dse_modelc.Pdu.Container.MapFrom.{Inbox, Run, attempt, deliver, map_from}

module _ {D L : Type 0} (scripts : Scripts D L) (pdus : List (PduObject D)) where
  ended≢running : {A : Type 0} {a : A} → ¬ (Run.ended a ≡ Run.running)
  ended≢running e = ground arith

  fault≢running : {A : Type 0} → ¬ (◌≡◌ {A = Run A} Run.fault Run.running)
  fault≢running e = ground arith

  round_ends :
      (end : ℕ) (stop : Bool) (b : Inbox L) (f : Inbox L → Run (Inbox L)) (o : Option (Inbox L))
      → ((b' : Inbox L) → o ≡ some b' → f b' ≢ Run.running)
      → ¬ ((elim stop [ true ↦ Run.ended b | false ↦ attempt o f ]) ≡ Run.running)
  round_ends end true b f o later e = ended≢running e
  round_ends end false b f none later e = fault≢running e
  round_ends end false b f (some b') later e = later b' refl e

  -- With short headers the loop ends: it takes at most one round more than the container has bytes.
  pub map_from-ends :
      (rounds : ℕ) (is : List MPduItem) (n offset : ℕ) (b : Inbox L)
      → IsBytes b.payload
      → n < 2 ^ 63
      → n ≤ rounds + offset
      → map_from scripts pdus (suc rounds) HeaderFormat.short is n offset b ≢ Run.running
  unfolding map_from
  map_from-ends zero is n offset b h w enough = λ e.
      ended≢running
        (sym (map_past scripts pdus 0 HeaderFormat.short is n offset b (omega arith)) ∙ e)
  map_from-ends (suc rounds) is n offset b h w enough = elim (Bool-cases (ltb offset n)) [
    | inr past ↦ λ e. ended≢running (
        sym (map_past scripts pdus (suc rounds) HeaderFormat.short is n offset b (ground arith))
        ∙ e)
    | inl inside ↦ elim (Option-cases (read_header HeaderFormat.short b.payload n offset)) [
      | inl fault ↦ λ e. fault≢running (rw (map_from, inside, fault) at e)
      | inr ((id, len), header) ↦
          let byte = short_length b.payload n offset (id, len) h header in
          let end = u64 (u64 (offset + 4) + len) in
          λ e.
            round_ends end (id == 0 || ltb n end) b
              (λ b'. map_from scripts pdus (suc rounds) HeaderFormat.short is n end b')
              (deliver scripts pdus is id (u64 (offset + 4)) len b)
              (λ b' d.
                map_from-ends rounds is n end b'
                  (deliver-IsBytes scripts pdus is id (u64 (offset + 4)) len b b' h d) w
                  (ground arith))
              (sym (
                  map_header scripts pdus (suc rounds) HeaderFormat.short is n offset id len b
                    inside header)
                ∙ e)
    ]
  ]

  deliver-unmatched :
      (is : List MPduItem) (id offset len : ℕ) (b : Inbox L)
      → All (λ i. i.id ≢ id) is
      → deliver scripts pdus is id offset len b ≡ some b
  unfolding deliver
  deliver-unmatched [] id offset len b h = refl
  deliver-unmatched (i ∷ is) id offset len b h =
      let miss : (i.id == id) ≡ false = ground arith in
      rw (deliver, miss) (deliver-unmatched is id offset len b h.1)

  -- With full headers it need not: a container that starts with the identifier of no I-PDU of the
  -- list and the length bytes FF FF FF F8 is searched for ever, as the sum of the offset and
  -- the length, whose sign is extended, is 0 again.
  pub map_from-endless :
      (rounds : ℕ) (is : List MPduItem) (w x y z : ℕ) (rest : List ℕ) (b : Inbox L)
      → be_32 w x y z ≢ 0
      → All (λ i. i.id ≢ be_32 w x y z) is
      → b.payload ≡ w ∷ x ∷ y ∷ z ∷ 255 ∷ 255 ∷ 255 ∷ 248 ∷ rest
      → length b.payload < 2 ^ 64
      → map_from scripts pdus rounds HeaderFormat.full is (length b.payload) 0 b ≡ Run.running
  unfolding map_from be_32 extend_sign
  map_from-endless zero is w x y z rest b h unmatched e size = refl
  map_from-endless (suc rounds) is w x y z rest b h unmatched e size =
      let id = be_32 w x y z in
      let n = length b.payload in
      let len = 2 ^ 64 - 8 in
      let long : 8 ≤ n = rw e (omega arith) in
      let header : read_header HeaderFormat.full b.payload n 0 ≡ some (id, len) =
        rw e (read_full [] rest w x y z 255 255 255 248) in
      let inside : ltb 0 n ≡ true = ground arith in
      let start : u64 (0 + 8) ≡ 8 = refl in
      let end : u64 (u64 (0 + 8) + len) ≡ 0 = refl in
      let on : (id == 0 || ltb n 0) ≡ false = ground arith in
      map_header scripts pdus rounds HeaderFormat.full is n 0 id len b inside header
      ∙ rw (on, deliver-unmatched is id 8 len b unmatched)
          (map_from-endless rounds is w x y z rest b h unmatched e size)
