-- ===== src/Mir/Consumed.antt =====
-- `CheckNoMoveAfterMove` of compiler/mir/w15_validate.go.
use fuse.Prelude.{
  ℕ, ◌+◌, Bool, true, false, ◌&&◌, not, ◌==◌, if◌then◌else◌, List, [], ◌∷◌, ◌++◌, map, Option, none,
  some,
}
use fuse.Mir.Types.{
  Op, drop, StructField, Inst, Terminator, term_return, term_if_eq, Block, Function, Fault, Reason,
  consumed, Result, ok, err, ◌>>=◌, ◌>>◌, at_place,
}

-- The map `consumed`: a register and the index at which it has last been dropped.
abbrev pub Drops : Type 0
Drops = List (ℕ × ℕ)

unfoldable pub dropped_at : Drops → ℕ → Option ℕ
dropped_at [] r = none
dropped_at ((x, n) ∷ drops) r = if x == r then some n else dropped_at drops r

abbrev pub is_drop : Op → Bool
is_drop drop = true
is_drop _ = false

-- `in.Op == OpDrop && in.Lhs != NoReg`.
abbrev pub consumes : Inst → Bool
consumes i = is_drop i.op && not (i.lhs == 0)

-- `check`, without the label, at a register that is not `NoReg`.
unfoldable pub check_unconsumed : Drops → ℕ → Result Reason (Unit {0})
unfolding dropped_at
check_unconsumed c r = elim (dropped_at c r) [ none ↦ ok tt | some n ↦ err (consumed r n) ]

-- `check` on each register in turn. `NoReg` is passed over.
unfoldable pub check_reads : Drops → List ℕ → Result Reason (Unit {0})
unfolding check_unconsumed
check_reads c [] = ok tt
check_reads c (r ∷ rs) =
    let rest = check_reads c rs in if r == 0 then rest else (check_unconsumed c r >> rest)

-- The registers that are checked, in the order of the checks.
abbrev pub operands : Inst → List ℕ
operands i = i.lhs ∷ i.rhs ∷ i.extra ∷ (i.call_args ++ map (λ (f : StructField). f.value) i.fields)

-- The loop over the instructions of a block, from the one at index `n` on.
unfoldable pub check_drops : ℕ → ℕ → Drops → List Inst → Result Fault Drops
unfolding check_reads
check_drops block n c [] = ok c
check_drops block n c (i ∷ insts) =
    let later = check_drops block (n + 1) ((i.lhs, n) ∷ c) insts in
    let here =
      at_place block (some n) (check_reads c (operands i)) >> check_drops block (n + 1) c insts in
    if consumes i then later else here

-- The reads of the terminator.
unfoldable pub check_term_reads : Terminator → Drops → Block → Result Reason (Unit {0})
unfolding check_unconsumed
check_term_reads term_return c b = check_unconsumed c b.return_reg
check_term_reads term_if_eq c b = check_unconsumed c b.branch_reg
check_term_reads _ c b = ok tt

unfoldable pub check_block : Block → Result Fault (Unit {0})
unfolding check_drops check_term_reads
check_block b = do
  c ← check_drops b.id 0 [] b.insts
  at_place b.id none (check_term_reads b.term c b)

-- The loop over the blocks.
unfoldable pub check_all_blocks : List Block → Result Fault (Unit {0})
unfolding check_block
check_all_blocks [] = ok tt
check_all_blocks (b ∷ blocks) = do check_block b; check_all_blocks blocks

-- `CheckNoMoveAfterMove`.
unfoldable pub check_no_move_after_move : Function → Result Fault (Unit {0})
unfolding check_all_blocks
check_no_move_after_move f = check_all_blocks f.blocks
