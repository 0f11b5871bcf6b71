-- ===== src/Consteval/Control.antt =====
-- compiler/consteval/eval.go: how the outcomes of the parts of an expression go on.
use fuse.Prelude.{
  ℕ, zero, suc, ltb, leb, ◌==◌, Bool, true, false, ◌&&◌, List, [], ◌∷◌, Bytes, if◌then◌else◌,
  Option, none, some,
}
use fuse.Typetable.Table.{Table}
use fuse.Consteval.Value.{Value, vk_invalid, vk_int, vk_bool, vk_unit, integer_bits, mask_to_width}
use fuse.Consteval.Words.{wrap}
use fuse.Consteval.State.{
  Flow, flow_normal, flow_return, flow_break, flow_continue, flow_error, flow_panic, State, emit,
  Scopes, Out, fail, next, After, turn, invalid_pattern, loop_limit, while_condition, while_limit,
}
use fuse.Consteval.Binding.{bound, refused, panicked, Binding}
use fuse.Consteval.Operators.{give}

-- Whether a pattern matches; `broken` where evaluation does not succeed.
pub data Matching : Type 0 where
  matched unmatched broken crashed : Matching

abbrev pub Matched : Type 0
Matched = Matching × Scopes × State

abbrev pub when : Bool → Matching
when true = matched
when false = unmatched

-- `bindOrRecurse` on what `matchPattern` gives: evaluation that does not succeed is no match.
abbrev pub or_recursed : Matched → (Scopes → State → Matched) → Matched
or_recursed (matched, env, s) k = k env s
or_recursed (unmatched, env, s) k = (unmatched, env, s)
or_recursed (broken, env, s) k = (unmatched, env, s)
or_recursed (crashed, env, s) k = (crashed, env, s)

-- The next alternative.
abbrev pub or_next : Matched → (Scopes → State → Matched) → Matched
or_next (matched, env, s) k = (matched, env, s)
or_next (unmatched, env, s) k = k env s
or_next (broken, env, s) k = (broken, env, s)
or_next (crashed, env, s) k = (crashed, env, s)

-- A bound of a range is evaluated.
abbrev pub with_bound : Out → Scopes → (Value → State → Matched) → Matched
with_bound (v, flow_normal, s) env k = k v s
with_bound (v, flow_return, s) env k = (broken, env, s)
with_bound (v, flow_break, s) env k = (broken, env, s)
with_bound (v, flow_continue, s) env k = (broken, env, s)
with_bound (v, flow_error, s) env k = (broken, env, s)
with_bound (v, flow_panic, s) env k = (crashed, env, s)

-- The rest of a match after the pattern of an arm.
abbrev pub arm_chosen : Matched → (Scopes → State → Out) → (State → Out) → Out
arm_chosen (matched, env, s) body others = body env s
arm_chosen (unmatched, env, s) body others = others s
arm_chosen (broken, env, s) body others = (vk_invalid, flow_error, s)
arm_chosen (crashed, env, s) body others = (vk_invalid, flow_panic, s)

-- The guard of an arm: anything else than true goes to the next one.
abbrev pub guarded : Value → Out → Out → Out
guarded (vk_bool ty true) body others = body
guarded _ body others = others

-- The integer of a pattern.
abbrev pub literal_matches : Table → ℕ → ℕ → Option ℕ → Scopes → State → Matched
literal_matches tab ty n none env s = (broken, env, emit invalid_pattern s)
literal_matches tab ty n (some u) env s =
    (when (mask_to_width u (integer_bits tab ty) == n), env, s)

-- The comparison of words in a range pattern.
abbrev pub in_range : Bool → Value → Value → Value → Bool
in_range inclusive (vk_int a n) (vk_int b lo) (vk_int c hi) =
    leb lo n && (if inclusive then leb n hi else ltb n hi)
in_range inclusive _ _ _ = false

abbrev pub first_path_seg : List Bytes → Bytes
first_path_seg [] = []
first_path_seg (x ∷ xs) = x

abbrev pub variant_matches : Option ℕ → ℕ → Matching
variant_matches none n = unmatched
variant_matches (some i) n = when (wrap i == n)

abbrev pub same_bool : Bool → Bool → Bool
same_bool true b = b
same_bool false true = false
same_bool false false = true

-- The outcome of a binding in a `let`.
abbrev pub let_bound : ℕ → Binding → After
let_bound ty (bound, env, s) = (vk_unit ty, flow_normal, env, s)
let_bound ty (refused, env, s) = (vk_invalid, flow_error, env, s)
let_bound ty (panicked, env, s) = (vk_invalid, flow_panic, env, s)

-- A statement's expression: its outcome with the scopes, and what follows a normal one.
abbrev pub stmt_next : Out → Scopes → (Value → State → After) → After
stmt_next (v, flow_normal, s) env k = k v s
stmt_next (v, flow_return, s) env k = (v, flow_return, env, s)
stmt_next (v, flow_break, s) env k = (v, flow_break, env, s)
stmt_next (v, flow_continue, s) env k = (v, flow_continue, env, s)
stmt_next (v, flow_error, s) env k = (v, flow_error, env, s)
stmt_next (v, flow_panic, s) env k = (v, flow_panic, env, s)

-- `return` and `break` with a value, unless it fails.
abbrev pub leaving : Flow → Out → Scopes → After
leaving fl (v, flow_error, s) env = (v, flow_error, env, s)
leaving fl (v, flow_panic, s) env = (v, flow_panic, env, s)
leaving fl (v, _, s) env = (v, fl, env, s)

-- The loops, at most `k` turns more.
unfoldable pub loop_turns : ℕ → (State → Out) → State → Out
loop_turns zero body s = fail loop_limit s
loop_turns (suc k) body s = turn (body s) (λ t. loop_turns k body t)

abbrev pub while_turn : Value → (State → Out) → (State → Out) → ℕ → State → Out
while_turn (vk_bool ty true) body again u s = turn (body s) again
while_turn (vk_bool ty false) body again u s = give (vk_unit u) s
while_turn _ body again u s = fail while_condition s

unfoldable pub while_turns : ℕ → (State → Out) → (State → Out) → ℕ → State → Out
while_turns zero cond body u s = fail while_limit s
while_turns (suc k) cond body u s =
    next (cond s) (λ v t. while_turn v body (λ r. while_turns k cond body u r) u t)
