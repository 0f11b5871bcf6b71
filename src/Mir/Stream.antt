-- ===== src/Mir/Stream.antt =====
-- The instructions and terminators of a function of compiler/mir in the order of its blocks.
use fuse.Prelude.{ℕ, ◌+◌, List, [], ◌∷◌, ◌++◌, ◌≡◌, refl, Option, none, some, arith}
use mathlib.Core.Path.{subst}
use fuse.Mir.Types.{
  Inst, Terminator, term_invalid, term_return, term_jump, term_if_eq, term_unreachable, other_term,
  Block, Function, Reason, Result, ok, err, at_place, ◌>>=◌,
}
use fuse.Mir.Validate.{Regs, check_op, check_term, check_insts, check_blocks, validate}
use fuse.Mir.Scoped.{reads, writes, Defined, check_op-Accepted}

-- One instruction, or the end of a block.
pub data Event : Type 0 where
  inst : Inst → Event
  ends : Block → Event

-- The register that a terminator reads.
abbrev pub term_reads : Terminator → Block → List ℕ
term_reads term_return b = b.return_reg ∷ []
term_reads term_if_eq b = b.branch_reg ∷ []
term_reads _ b = []

abbrev pub event_reads : Event → List ℕ
event_reads (inst i) = reads i.op i
event_reads (ends b) = term_reads b.term b

abbrev pub event_writes : Event → List ℕ
event_writes (inst i) = writes i.op i
event_writes (ends b) = []

abbrev pub block_events : List Inst → Block → List Event
block_events [] b = ends b ∷ []
block_events (i ∷ insts) b = inst i ∷ block_events insts b

abbrev pub events : List Block → List Event
events [] = []
events (b ∷ blocks) = block_events b.insts b ++ events blocks

-- The registers that the events write, the last first, before those of `d`.
abbrev pub written : List Event → Regs → Regs
written [] d = d
written (e ∷ es) d = written es (event_writes e ++ d)

-- Every event reads only registers that are defined when it is reached.
data Scoped : Regs → List Event → Type 0 where
  nil : {d : Regs} → Scoped d []
  cons :
      {d : Regs} {e : Event} {es : List Event}
      → Defined d (event_reads e)
      → Scoped (event_writes e ++ d) es
      → Scoped d (e ∷ es)

pub at_place-eq-ok {ℓ} :
    {A : Type ℓ} (block : ℕ) (n : Option ℕ) (r : Result Reason A) {a : A}
    → at_place block n r ≡ ok a
    → r ≡ ok a
at_place-eq-ok block n (ok x) h = ground arith
at_place-eq-ok block n (err why) h = cc

pub >>=-eq-ok {ℓ κ} :
    {E : Type 0} {A : Type ℓ} {B : Type κ} {b : B} (m : Result E A) (next : A → Result E B)
    → (m >>= next) ≡ ok b
    → (a : A) × (m ≡ ok a) × (next a ≡ ok b)
>>=-eq-ok (err fault) next h = cc
>>=-eq-ok (ok a) next h = (a, refl, h)

check_term-Defined :
    (t : Terminator) (d : Regs) (b : Block) → check_term t d b ≡ ok tt → Defined d (term_reads t b)
unfolding check_term
check_term-Defined term_invalid d b h = tt
check_term-Defined term_return d b h = ground arith
check_term-Defined term_jump d b h = tt
check_term-Defined term_if_eq d b h = ground arith
check_term-Defined term_unreachable d b h = tt
check_term-Defined (other_term n) d b h = tt

-- What is known of the rest of the stream is known of the stream.
Scoped-insts :
    (block n : ℕ) (d e : Regs) (insts : List Inst) (b : Block) (rest : List Event)
    → check_insts block n d insts ≡ ok e
    → Defined e (term_reads b.term b)
    → Scoped e rest
    → Scoped d (block_events insts b ++ rest)
unfolding check_insts
Scoped-insts block n d e [] b rest h t s = let same : d ≡ e = ground arith in rw same (cons t s)
Scoped-insts block n d e (i ∷ insts) b rest h t s =
    let (mid, first, later) = >>=-eq-ok (at_place block (some n) (check_op i.op d i)) _ h in
    let seen =
      check_op-Accepted i.op d mid i (at_place-eq-ok block (some n) (check_op i.op d i) first) in
    cons seen.sees (
      subst (λ k. Scoped k (block_events insts b ++ rest)) seen.adds
        (Scoped-insts block (n + 1) mid e insts b rest later t s))

check_blocks-Scoped :
    (d e : Regs) (blocks : List Block) → check_blocks d blocks ≡ ok e → Scoped d (events blocks)
unfolding check_blocks
check_blocks-Scoped d e [] h = nil
check_blocks-Scoped d e (b ∷ blocks) h =
    let (mid, insts_ok, later) = >>=-eq-ok (check_insts b.id 0 d b.insts) _ h in
    let (_, term_ok, rest_ok) = >>=-eq-ok (at_place b.id none (check_term b.term mid b)) _ later in
    Scoped-insts b.id 0 d mid b.insts b (events blocks) insts_ok
      (check_term-Defined b.term mid b (at_place-eq-ok b.id none (check_term b.term mid b) term_ok))
      (check_blocks-Scoped mid e blocks rest_ok)

Scoped-split :
    (d : Regs) (before : List Event) (e : Event) (after : List Event)
    → Scoped d (before ++ (e ∷ after))
    → Defined (written before d) (event_reads e)
Scoped-split d [] e after (cons r s) = r
Scoped-split d (x ∷ before) e after (cons r s) = Scoped-split (event_writes x ++ d) before e after s

-- In a function that `Validate` accepts, every register that an instruction or a terminator reads has
-- been written by an instruction before it, in the order of the blocks.
pub validate-Defined :
    (f : Function) (before : List Event) (e : Event) (after : List Event)
    → validate f ≡ ok tt
    → events f.blocks ≡ before ++ (e ∷ after)
    → Defined (written before []) (event_reads e)
unfolding validate
validate-Defined f before e after h split =
    let (d, blocks_ok, _) = >>=-eq-ok (check_blocks [] f.blocks) _ h in
    Scoped-split [] before e after
      (subst (Scoped []) split (check_blocks-Scoped [] d f.blocks blocks_ok))
