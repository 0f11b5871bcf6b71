-- ===== src/Mir/BuilderTests.antt =====
-- A function made by the Builder of compiler/mir: `7 + 7`, returned.
use fuse.Prelude.{true, [], ◌∷◌, ◌≡◌, refl, some, none, codes, arith}
use fuse.Prelude.Int.{pos}
use fuse.Mir.Types.{Op, ok}
use fuse.Mir.Validate.{validate, is_defined}
use fuse.Mir.Builder.{Builder, Made, Done, new_function, emit, seal, return}
use fuse.Mir.Methods as Methods
use fuse.Mir.Step as Step
use fuse.Mir.Step.{done, next}
use fuse.Mir.Fresh.{Fresh}
use fuse.Mir.SingleAssignment.{Steps-Fresh}
use fuse.Mir.Lowered as Lowered
use fuse.Mir.Lowering.{Lowered-validate}

abbrev empty : Builder
empty = new_function (codes "m") (codes "main")

abbrev made : Made → Builder
made none = empty
made (some (r, b)) = b

abbrev done_with : Done → Builder
done_with none = empty
done_with (some b) = b

abbrev with_constant : Builder
with_constant = made (Methods.const_int (pos 7) empty)

abbrev with_sum : Builder
with_sum = made (Methods.binary Op.add 1 1 with_constant)

abbrev returned : Builder
returned = done_with (return 2 with_sum)

const_int_runs : Methods.const_int (pos 7) empty ≡ some (1, with_constant)
unfolding new_function emit
const_int_runs = refl

binary_runs : Methods.binary Op.add 1 1 with_constant ≡ some (2, with_sum)
unfolding new_function emit
binary_runs = refl

return_runs : return 2 with_sum ≡ some returned
unfolding new_function emit seal
return_runs = refl

Steps-Fresh_example : Fresh returned
Steps-Fresh_example = Steps-Fresh (codes "m") (codes "main") returned (
    next
      (next (next done (Step.const_int (pos 7) const_int_runs))
        (Step.binary Op.add 1 1 binary_runs))
      (Step.return 2 return_runs))

one_defined : is_defined (1 ∷ []) 1 ≡ true
unfolding is_defined
one_defined = refl

two_defined : is_defined (2 ∷ 1 ∷ []) 2 ≡ true
unfolding is_defined
two_defined = refl

Lowered-validate_example : validate returned.fn ≡ ok tt
Lowered-validate_example = Lowered-validate returned (2 ∷ 1 ∷ []) (
    Lowered.return 2
      (Lowered.binary Op.add 1 1
        (Lowered.const_int (pos 7) (Lowered.new_function (codes "m") (codes "main")) const_int_runs)
        (omega arith, one_defined) (omega arith, one_defined) binary_runs)
      (omega arith, two_defined) return_runs)

-- A method on a sealed block panics.
sealed_panics : Methods.const_int (pos 7) returned ≡ none
unfolding new_function emit seal
sealed_panics = refl
