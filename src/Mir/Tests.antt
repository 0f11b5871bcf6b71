-- ===== src/Mir/Tests.antt =====
-- Small functions of compiler/mir, and the theorems at concrete inputs.
use fuse.Prelude.{ℕ, false, List, [], ◌∷◌, All, ◌≡◌, ◌≢◌, refl, some, codes, Bytes}
use fuse.Prelude.Int.{pos}
use fuse.Mir.Types.{
  Op, const_int, add, drop, CastMode, Inst, Terminator, term_return, term_unreachable, Block,
  Function, ok, err, undefined, consumed,
}
use fuse.Mir.Validate.{check_op, validate}
use fuse.Mir.Scoped.{Defined, Accepted, check_op-Accepted}
use fuse.Mir.Stream.{inst, ends, event_reads, written, validate-Defined, term_reads}
use fuse.Mir.Consumed.{operands, check_no_move_after_move}
use fuse.Mir.UseAfterDrop.{not-read_after_drop, not-read_by_term}

abbrev plain_inst : Op → ℕ → ℕ → ℕ → Bytes → Inst
plain_inst op dst lhs rhs name = record {
  op = op;
  dst = dst;
  lhs = lhs;
  rhs = rhs;
  int_value = pos 7;
  param_index = pos 0;
  call_name = name;
  call_args = [];
  mode = CastMode.invalid;
  flag = false;
  extra = 0;
  field_name = [];
  fields = [];
  line = 0;
}

abbrev constant : Inst
constant = plain_inst const_int 1 0 0 []

abbrev sum : Inst
sum = plain_inst add 2 1 1 []

abbrev drop_one : Inst
drop_one = plain_inst drop 0 1 0 (codes "T_drop")

abbrev block_of : List Inst → Terminator → ℕ → Block
block_of insts term reg = record {
  id = 1;
  insts = insts;
  term = term;
  return_reg = reg;
  jump_target = 0;
  branch_reg = 0;
  branch_const = pos 0;
  true_target = 0;
  false_target = 0;
}

abbrev function_of : Block → Function
function_of b = record {
  name = codes "main";
  module_name = [];
  num_regs = 3;
  num_params = 0;
  blocks = b ∷ [];
}

-- var x = 7; return x + x, with x dropped behind the sum.
abbrev sum_block : Block
sum_block = block_of (constant ∷ sum ∷ drop_one ∷ []) term_return 2

abbrev sum_function : Function
sum_function = function_of sum_block

validate_sum : validate sum_function ≡ ok tt
unfolding validate
validate_sum = refl

-- The sum comes before its operand.
validate_swapped :
    validate (function_of (block_of (sum ∷ constant ∷ []) term_return 2))
    ≡ err (record { block = 1; inst = some 0; why = undefined 1 })
unfolding validate
validate_swapped = refl

no_move_sum : check_no_move_after_move sum_function ≡ ok tt
unfolding check_no_move_after_move
no_move_sum = refl

-- The sum comes behind the drop of its operand.
no_move_swapped :
    check_no_move_after_move (function_of (block_of (constant ∷ drop_one ∷ sum ∷ []) term_return 2))
    ≡ err (record { block = 1; inst = some 2; why = consumed 1 1 })
unfolding check_no_move_after_move
no_move_swapped = refl

accepted_sum : check_op add (1 ∷ []) sum ≡ ok (2 ∷ 1 ∷ [])
unfolding check_op
accepted_sum = refl

check_op-Accepted_example : Accepted (1 ∷ []) (2 ∷ 1 ∷ []) (1 ∷ 1 ∷ []) (2 ∷ [])
check_op-Accepted_example = check_op-Accepted add (1 ∷ []) (2 ∷ 1 ∷ []) sum accepted_sum

validate-Defined_example : Defined (written (inst constant ∷ []) []) (event_reads (inst sum))
validate-Defined_example =
    validate-Defined sum_function (inst constant ∷ []) (inst sum)
      (inst drop_one ∷ ends sum_block ∷ []) validate_sum refl

drop_first :
    check_no_move_after_move (function_of (block_of (drop_one ∷ constant ∷ []) term_unreachable 0))
    ≡ ok tt
unfolding check_no_move_after_move
drop_first = refl

not-read_after_drop_example : All (λ x. x ≢ 1) (operands constant)
not-read_after_drop_example =
    not-read_after_drop (function_of (block_of (drop_one ∷ constant ∷ []) term_unreachable 0)) []
      (block_of (drop_one ∷ constant ∷ []) term_unreachable 0) [] [] drop_one drop_first refl refl
      [] constant [] refl refl

not-read_by_term_example : All (λ x. x ≢ 1) (term_reads term_return sum_block)
not-read_by_term_example =
    not-read_by_term sum_function [] sum_block [] (constant ∷ sum ∷ []) drop_one no_move_sum refl
      refl [] refl

-- One register dropped twice.
abbrev twice : Function
twice = function_of (block_of (drop_one ∷ drop_one ∷ []) term_unreachable 0)
