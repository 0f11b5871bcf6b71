-- ===== src/Mir/UseAfterDrop.antt =====
-- What `CheckNoMoveAfterMove` of compiler/mir/w15_validate.go accepts.
use fuse.Prelude.{
  ℕ, ◌+◌, true, false, Bool-cases, ◌==◌, List, [], ◌∷◌, ◌++◌, All, ◌≡◌, ◌≢◌, sym, ◌∙◌, inl, inr,
  none, some, arith,
}
use mathlib.Core.Path.{subst}
use fuse.Mir.Types.{
  Inst, Terminator, term_return, term_if_eq, term_unreachable, Block, Function, ok, ◌>>◌, at_place,
}
use fuse.Mir.Consumed.{
  Drops, dropped_at, consumes, check_unconsumed, check_reads, operands, check_drops,
  check_term_reads, check_block, check_all_blocks, check_no_move_after_move,
}
use fuse.Mir.Stream.{at_place-eq-ok, >>=-eq-ok, term_reads}

-- The register `r` has been dropped.
abbrev Dropped : Drops → ℕ → Type 0
Dropped c r = (n : ℕ) × (dropped_at c r ≡ some n)

Dropped-cons : (c : Drops) (x n r : ℕ) → Dropped c r → Dropped ((x, n) ∷ c) r
unfolding dropped_at
Dropped-cons c x n r (m, h) = elim (Bool-cases (x == r)) [ inl e ↦ (n, rw e) | inr e ↦ (m, rw e h) ]

Dropped-here : (c : Drops) (n r : ℕ) → Dropped ((r, n) ∷ c) r
unfolding dropped_at
Dropped-here c n r = (n, ground arith)

check_unconsumed-ne : (c : Drops) (r x : ℕ) → Dropped c r → check_unconsumed c x ≡ ok tt → x ≢ r
unfolding check_unconsumed
check_unconsumed-ne c r x (n, h) k e = cc (rw (e, h, check_unconsumed) at k)

check_reads-ne :
    (c : Drops) (r : ℕ) (rs : List ℕ)
    → r ≢ 0
    → Dropped c r
    → check_reads c rs ≡ ok tt
    → All (λ x. x ≢ r) rs
unfolding check_reads
check_reads-ne c r [] p h k = tt
check_reads-ne c r (x ∷ rs) p h k = elim (Bool-cases (x == 0)) [
  | inl e ↦ (ground arith, check_reads-ne c r rs p h (rw (e, check_reads) at k))
  | inr e ↦
      let (_, first, rest) = >>=-eq-ok (check_unconsumed c x) _ (rw (e, check_reads) at k) in
      (check_unconsumed-ne c r x h first, check_reads-ne c r rs p h rest)
]

step_drop :
    (block n : ℕ) (c : Drops) (i : Inst) (insts : List Inst)
    → consumes i ≡ true
    → check_drops block n c (i ∷ insts) ≡ check_drops block (n + 1) ((i.lhs, n) ∷ c) insts
unfolding check_drops
step_drop block n c i insts e = simp (e, check_drops)

step_read :
    (block n : ℕ) (c e : Drops) (i : Inst) (insts : List Inst)
    → consumes i ≡ false
    → check_drops block n c (i ∷ insts) ≡ ok e
    → (check_reads c (operands i) ≡ ok tt) × (check_drops block (n + 1) c insts ≡ ok e)
unfolding check_drops
step_read block n c e i insts f h =
    let here : (at_place block (some n) (check_reads c (operands i))
          >> check_drops block (n + 1) c insts)
        ≡ ok e =
      simp (f, check_drops) at h in
    let (_, first, rest) =
      >>=-eq-ok (at_place block (some n) (check_reads c (operands i))) _ here in
    (at_place-eq-ok block (some n) (check_reads c (operands i)) first, rest)

-- A dropped register stays dropped to the end of the block, and no other instruction reads it.
Dropped-tail :
    (block n : ℕ) (c e : Drops) (r : ℕ) (insts : List Inst)
    → Dropped c r
    → check_drops block n c insts ≡ ok e
    → Dropped e r
unfolding check_drops
Dropped-tail block n c e r [] h k = let same : c ≡ e = ground arith in rw (← same) h
Dropped-tail block n c e r (i ∷ insts) h k = elim (Bool-cases (consumes i)) [
  | inl f ↦
      Dropped-tail block (n + 1) ((i.lhs, n) ∷ c) e r insts (Dropped-cons c i.lhs n r h)
        (sym (step_drop block n c i insts f) ∙ k)
  | inr f ↦ Dropped-tail block (n + 1) c e r insts h (step_read block n c e i insts f k).1
]

Dropped-unread :
    (block n : ℕ) (c e : Drops) (r : ℕ) (mid : List Inst) (i : Inst) (after : List Inst)
    → r ≢ 0
    → Dropped c r
    → consumes i ≡ false
    → check_drops block n c (mid ++ (i ∷ after)) ≡ ok e
    → All (λ x. x ≢ r) (operands i)
Dropped-unread block n c e r [] i after p h q k =
    check_reads-ne c r (operands i) p h (step_read block n c e i after q k).0
Dropped-unread block n c e r (j ∷ mid) i after p h q k = elim (Bool-cases (consumes j)) [
  | inl f ↦
      Dropped-unread block (n + 1) ((j.lhs, n) ∷ c) e r mid i after p (Dropped-cons c j.lhs n r h) q
        (sym (step_drop block n c j (mid ++ (i ∷ after)) f) ∙ k)
  | inr f ↦
      Dropped-unread block (n + 1) c e r mid i after p h q
        (step_read block n c e j (mid ++ (i ∷ after)) f k).1
]

-- Behind an instruction that drops a register, that register is dropped.
behind_drop :
    (block n : ℕ) (c e : Drops) (before : List Inst) (d : Inst) (rest : List Inst)
    → consumes d ≡ true
    → check_drops block n c (before ++ (d ∷ rest)) ≡ ok e
    → (m : ℕ) × (c' : Drops) × Dropped c' d.lhs × (check_drops block m c' rest ≡ ok e)
behind_drop block n c e [] d rest q k =
    (n + 1, (d.lhs, n) ∷ c, Dropped-here c n d.lhs, sym (step_drop block n c d rest q) ∙ k)
behind_drop block n c e (j ∷ before) d rest q k = elim (Bool-cases (consumes j)) [
  | inl f ↦
      behind_drop block (n + 1) ((j.lhs, n) ∷ c) e before d rest q
        (sym (step_drop block n c j (before ++ (d ∷ rest)) f) ∙ k)
  | inr f ↦
      behind_drop block (n + 1) c e before d rest q
        (step_read block n c e j (before ++ (d ∷ rest)) f k).1
]

check_all_blocks-split :
    (before : List Block) (b : Block) (after : List Block)
    → check_all_blocks (before ++ (b ∷ after)) ≡ ok tt
    → check_block b ≡ ok tt
unfolding check_all_blocks
check_all_blocks-split [] b after h = let (_, first, _) = >>=-eq-ok (check_block b) _ h in first
check_all_blocks-split (x ∷ before) b after h =
    let (_, _, rest) = >>=-eq-ok (check_block x) _ h in check_all_blocks-split before b after rest

consumes-ne : (d : Inst) → consumes d ≡ true → d.lhs ≢ 0
consumes-ne d h = ground arith

term_reads-ne :
    (t : Terminator) (c : Drops) (b : Block) (r : ℕ)
    → Dropped c r
    → check_term_reads t c b ≡ ok tt
    → All (λ x. x ≢ r) (term_reads t b)
unfolding check_term_reads
term_reads-ne term_return c b r h k = (check_unconsumed-ne c r b.return_reg h k, tt)
term_reads-ne term_if_eq c b r h k = (check_unconsumed-ne c r b.branch_reg h k, tt)
term_reads-ne _ c b r h k = tt

module _ (f : Function) (above : List Block) (b : Block) (below : List Block) (before : List Inst)
    (d : Inst) (accepted : check_no_move_after_move f ≡ ok tt)
    (in_function : f.blocks ≡ above ++ (b ∷ below)) (drops : consumes d ≡ true) where
  block_ok :
      (c : Drops) × (check_drops b.id 0 [] b.insts ≡ ok c) × (check_term_reads b.term c b ≡ ok tt)
  unfolding check_no_move_after_move check_block
  block_ok =
      let h = check_all_blocks-split above b below (rw in_function at accepted) in
      let (c, insts_ok, term_ok) = >>=-eq-ok (check_drops b.id 0 [] b.insts) _ h in
      (c, insts_ok, at_place-eq-ok b.id none (check_term_reads b.term c b) term_ok)

  -- In a function that `CheckNoMoveAfterMove` accepts, no instruction of a block other than a drop has
  -- among its operands a register that an earlier instruction of the block drops.
  pub not-read_after_drop :
      (mid : List Inst) (i : Inst) (after : List Inst)
      → b.insts ≡ before ++ (d ∷ (mid ++ (i ∷ after)))
      → consumes i ≡ false
      → All (λ x. x ≢ d.lhs) (operands i)
  not-read_after_drop mid i after split q =
      let (c, insts_ok, _) = block_ok in
      let (m, c', dropped, k) =
        behind_drop b.id 0 [] c before d (mid ++ (i ∷ after)) drops
          (subst (λ l. check_drops b.id 0 [] l ≡ ok c) split insts_ok) in
      Dropped-unread b.id m c' c d.lhs mid i after (consumes-ne d drops) dropped q k

  -- Nor does the terminator of the block read it.
  pub not-read_by_term :
      (after : List Inst)
      → b.insts ≡ before ++ (d ∷ after)
      → All (λ x. x ≢ d.lhs) (term_reads b.term b)
  not-read_by_term after split =
      let (c, insts_ok, term_ok) = block_ok in
      let (m, c', dropped, k) =
        behind_drop b.id 0 [] c before d after drops
          (subst (λ l. check_drops b.id 0 [] l ≡ ok c) split insts_ok) in
      let gone = Dropped-tail b.id m c' c d.lhs after dropped k in
      term_reads-ne b.term c b d.lhs gone term_ok

-- Blocks with nothing but drops, which end in no value.
abbrev pub OnlyDrops : Block → Type 0
OnlyDrops b = All (λ i. consumes i ≡ true) b.insts × (b.term ≡ term_unreachable)
