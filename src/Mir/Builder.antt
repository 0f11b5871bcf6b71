-- ===== src/Mir/Builder.antt =====
-- The Builder of compiler/mir/mir.go, w15_builder.go and w16_builder.go.
use fuse.Prelude.{
  ℕ, zero, suc, ◌+◌, Bool, true, false, ◌==◌, if◌then◌else◌, List, [], ◌∷◌, ◌++◌, length, Option,
  none, some, Bytes,
}
use fuse.Prelude.Int.{ℤ, pos, negsuc}
use fuse.Mir.Types.{Op, CastMode, Inst, Terminator, Block, Function}

-- `Builder`. The pointer `current` is an index into the blocks, and none is nil.
pub record Builder : Type 0 where
  pub fn : Function
  pub current : Option ℕ
  pub line : ℕ

-- A method without a result. None is a panic, of the method's own or at a nil pointer.
abbrev pub Done : Type 0
Done = Option Builder

-- A method that returns a register.
abbrev pub Made : Type 0
Made = Option (ℕ × Builder)

-- `SetLine`.
unfoldable pub set_line : ℤ → Builder → Builder
set_line (pos n) b = record b { line = n }
set_line (negsuc n) b = record b { line = 0 }

-- A block changed in place, by its index.
unfoldable pub change_at : ℕ → (Block → Block) → List Block → List Block
change_at k f [] = []
change_at zero f (x ∷ xs) = f x ∷ xs
change_at (suc k) f (x ∷ xs) = x ∷ change_at k f xs

-- What is done to `*b.current`.
unfoldable pub on_current : (Block → Block) → Builder → Done
unfolding change_at
on_current f b = elim b.current [
  | none ↦ none
  | some k ↦ some (record b { fn = record b.fn { blocks = change_at k f b.fn.blocks } })
]

abbrev pub add_inst : Inst → Block → Block
add_inst i blk = record blk { insts = blk.insts ++ (i ∷ []) }

-- `appendInst`.
unfoldable pub append_inst : Inst → Builder → Done
unfolding on_current
append_inst i b = on_current (add_inst (record i { line = b.line })) b

-- `Block{ID: id}`.
abbrev pub new_block : ℕ → Block
new_block n = record {
  id = n;
  insts = [];
  term = Terminator.term_invalid;
  return_reg = 0;
  jump_target = 0;
  branch_reg = 0;
  branch_const = pos 0;
  true_target = 0;
  false_target = 0;
}

-- `BeginBlock`, which returns the block's id.
unfoldable pub begin_block : Builder → ℕ × Builder
begin_block b =
    let n = length b.fn.blocks in
    (
      n + 1,
      record b {
        fn = record b.fn { blocks = b.fn.blocks ++ (new_block (n + 1) ∷ []) };
        current = some n;
      },
    )

-- `NewFunction`.
unfoldable pub new_function : Bytes → Bytes → Builder
unfolding begin_block
new_function module_name name =
    (begin_block (record {
      fn = record {
        name = name;
        module_name = module_name;
        num_regs = 1;
        num_params = 0;
        blocks = [];
      };
      current = none;
      line = 0;
    })).1

-- `NewReg`: the builder after it. The register is the number that was next.
unfoldable pub new_reg : Builder → Builder
new_reg b = record b { fn = record b.fn { num_regs = suc b.fn.num_regs } }

-- `Inst{Op: op}`, the other fields at Go's zero values.
abbrev pub bare : Op → Inst
bare o = record {
  op = o;
  dst = 0;
  lhs = 0;
  rhs = 0;
  int_value = pos 0;
  param_index = pos 0;
  call_name = [];
  call_args = [];
  mode = CastMode.invalid;
  flag = false;
  extra = 0;
  field_name = [];
  fields = [];
  line = 0;
}

-- `return dst`, if nothing panics.
abbrev pub returning : ℕ → Done → Made
returning r none = none
returning r (some b) = some (r, b)

-- `dst := b.NewReg()`, `b.appendInst(i)` with `Dst: dst`, and `return dst`.
unfoldable pub emit : Inst → Builder → Made
unfolding new_reg append_inst
emit i b = returning b.fn.num_regs (append_inst (record i { dst = b.fn.num_regs }) (new_reg b))

-- `b.current = nil`, if nothing panics.
abbrev pub sealing : Done → Done
sealing none = none
sealing (some b) = some (record b { current = none })

-- A terminator seals the current block.
unfoldable pub seal : (Block → Block) → Builder → Done
unfolding on_current
seal f b = sealing (on_current f b)

-- `Return`.
abbrev pub return : ℕ → Builder → Done
return r b = seal (λ blk. record blk { term = Terminator.term_return; return_reg = r }) b

-- `Jump`.
abbrev pub jump : ℕ → Builder → Done
jump target b = seal (λ blk. record blk { term = Terminator.term_jump; jump_target = target }) b

-- `IfEq`.
abbrev pub if_eq : ℕ → ℤ → ℕ → ℕ → Builder → Done
if_eq r constant on_true on_false b =
    seal
      (λ blk. record blk {
        term = Terminator.term_if_eq;
        branch_reg = r;
        branch_const = constant;
        true_target = on_true;
        false_target = on_false;
      })
      b

-- `Unreachable`.
abbrev pub unreachable : Builder → Done
unreachable b = seal (λ blk. record blk { term = Terminator.term_unreachable }) b

-- The loop of `UseBlock`, from index `k` on.
unfoldable pub find_block : ℕ → ℕ → List Block → Option ℕ
find_block id k [] = none
find_block id k (x ∷ xs) = if x.id == id then some k else find_block id (k + 1) xs

-- `UseBlock`. An id that no block has changes nothing.
unfoldable pub use_block : ℕ → Builder → Builder
unfolding find_block
use_block id b = elim (find_block id 0 b.fn.blocks) [
  | none ↦ b
  | some k ↦ record b { current = some k }
]

-- `EmitAfterSeal`.
abbrev pub emit_after_seal : Builder → Bool
emit_after_seal b = elim b.current [ none ↦ true | some k ↦ false ]
