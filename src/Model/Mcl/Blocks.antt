-- ===== src/Model/Mcl/Blocks.antt =====
-- The blocks of signals of one kind that mcl_load() finds in the source: dse/modelc/model/mcl.c.
-- _match_block() gives each block to the marshal library, unless it is empty or has no data.
use dse_modelc.Base.{
  ℕ, zero, suc, ◌+◌, ◌≡◌, ◌≢◌, refl, ap, ◌∙◌, inl, inr, ◌&&◌, ◌||◌, not, List, [], ◌∷◌, ◌++◌, arith,
  Bool-cases, replicate, ◌==◌, if◌then◌else◌,
}

-- A kind is its number in the marshal library; 0 is none.
pub record Block : Type 0 where
  pub offset : ℕ
  pub count : ℕ
  pub kind : ℕ

-- The rest of the kinds from position i on, with the block that is open.
unfoldable pub next_blocks : ℕ → Block → List ℕ → List Block
next_blocks i b [] = b ∷ []
next_blocks i b (k ∷ ks) =
    if not (k == b.kind)
    then b ∷ next_blocks (i + 1) (record { offset = i; count = 1; kind = k }) ks
    else next_blocks (i + 1) (record b { count = b.count + 1 }) ks

unfoldable pub source_blocks : List ℕ → List Block
source_blocks kinds = next_blocks 0 (record { offset = 0; count = 0; kind = 0 }) kinds

-- The blocks that are matched with the signal vectors; the kinds of primitives and of binaries are
-- given.
unfoldable pub matched_blocks : ℕ → ℕ → List Block → List Block
matched_blocks primitive binary [] = []
matched_blocks primitive binary (b ∷ bs) =
    if not (b.count == 0) && (b.kind == primitive || b.kind == binary)
    then b ∷ matched_blocks primitive binary bs
    else matched_blocks primitive binary bs

-- The kinds that the blocks cover.
abbrev pub expand : List Block → List ℕ
expand [] = []
expand (b ∷ bs) = replicate b.count b.kind ++ expand bs

-- Each block starts where the one before it ends, and is of another kind.
abbrev pub IsPartition : ℕ → List Block → Type 0
IsPartition n [] = Unit
IsPartition n (b ∷ bs) = (b.offset ≡ n) × IsPartition (n + b.count) bs

abbrev pub HasNewKinds : List Block → Type 0
HasNewKinds [] = Unit
HasNewKinds (b ∷ []) = Unit
HasNewKinds (b ∷ c ∷ bs) = (c.kind ≢ b.kind) × HasNewKinds (c ∷ bs)

replicate-snoc : (n k : ℕ) (ks : List ℕ) → replicate (n + 1) k ++ ks ≡ replicate n k ++ k ∷ ks
replicate-snoc zero k ks = refl
replicate-snoc (suc n) k ks =
    let next : suc n + 1 ≡ suc (n + 1) = omega arith in
    rw next (ap (λ xs. k ∷ xs) (replicate-snoc n k ks))

next_blocks-expand :
    (ks : List ℕ) (i : ℕ) (b : Block) → expand (next_blocks i b ks) ≡ replicate b.count b.kind ++ ks
unfolding next_blocks
next_blocks-expand [] i b = refl
next_blocks-expand (k ∷ ks) i b = elim (Bool-cases (k == b.kind)) [
  | inl same ↦
      let kind : b.kind ≡ k = ground arith in
      rw (next_blocks, same)
        (next_blocks-expand ks (i + 1) (record b { count = b.count + 1 })
          ∙ replicate-snoc b.count b.kind ks
          ∙ ap (λ x. replicate b.count b.kind ++ x ∷ ks) kind)
  | inr new ↦
      rw (next_blocks, new)
        (ap (λ xs. replicate b.count b.kind ++ xs)
          (next_blocks-expand ks (i + 1) (record { offset = i; count = 1; kind = k })))
]

next_blocks-IsPartition :
    (ks : List ℕ) (i n : ℕ) (b : Block)
    → b.offset ≡ n
    → n + b.count ≡ i
    → IsPartition n (next_blocks i b ks)
unfolding next_blocks
next_blocks-IsPartition [] i n b e f = (e, tt)
next_blocks-IsPartition (k ∷ ks) i n b e f = elim (Bool-cases (k == b.kind)) [
  | inl same ↦
      rw (next_blocks, same)
        (next_blocks-IsPartition ks (i + 1) n (record b { count = b.count + 1 }) e (omega arith))
  | inr new ↦
      rw (next_blocks, new)
        (
          e,
          next_blocks-IsPartition ks (i + 1) (n + b.count)
              (record { offset = i; count = 1; kind = k }) (omega arith) (omega arith),
        )
]

next_blocks-HasNewKinds :
    (ks : List ℕ) (i : ℕ) (before b : Block)
    → b.kind ≢ before.kind
    → HasNewKinds (before ∷ next_blocks i b ks)
unfolding next_blocks
next_blocks-HasNewKinds [] i before b h = (h, tt)
next_blocks-HasNewKinds (k ∷ ks) i before b h = elim (Bool-cases (k == b.kind)) [
  | inl same ↦
      rw (next_blocks, same)
        (next_blocks-HasNewKinds ks (i + 1) before (record b { count = b.count + 1 }) h)
  | inr new ↦
      rw (next_blocks, new)
        (
          h,
          next_blocks-HasNewKinds ks (i + 1) b (record { offset = i; count = 1; kind = k })
              (ground arith),
        )
]

HasNewKinds-tail : (b : Block) (bs : List Block) → HasNewKinds (b ∷ bs) → HasNewKinds bs
HasNewKinds-tail b [] h = tt
HasNewKinds-tail b (c ∷ bs) h = h.1

-- The blocks that are found in the source cover it: read one after the other they give the kinds
-- of all its signals, each block starts where the one before it ends, and neighbours have
-- different kinds.
pub source_blocks-IsPartition :
    (kinds : List ℕ)
    → (expand (source_blocks kinds) ≡ kinds)
      × IsPartition 0 (source_blocks kinds)
      × HasNewKinds (source_blocks kinds)
unfolding source_blocks
source_blocks-IsPartition kinds =
    let first : Block = record { offset = 0; count = 0; kind = 0 } in
    (
      next_blocks-expand kinds 0 first,
      next_blocks-IsPartition kinds 0 0 first refl refl,
      HasNewKinds-tail (record { offset = 0; count = 0; kind = 1 }) (next_blocks 0 first kinds)
          (next_blocks-HasNewKinds kinds 0 (record { offset = 0; count = 0; kind = 1 }) first
            (omega arith)),
    )
