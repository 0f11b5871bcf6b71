-- ===== src/Mir/Fresh.antt =====
-- The registers that a Builder of compiler/mir hands out.
use fuse.Prelude.{
  ℕ, zero, suc, ◌+◌, ◌≤◌, ◌<◌, ltb, true, Bool-cases, ◌==◌, if◌then◌else◌, List, [], ◌∷◌, ◌++◌,
  length, Option, none, some, ◌≡◌, inl, inr, refl, ap, arith,
}
use mathlib.Core.Path.{subst}
use mathlib.Core.Option.{some-injective}
use fuse.Prelude.Int.{ℤ, pos, negsuc}
use fuse.Mir.Types.{Op, Inst, Block}
use fuse.Mir.Scoped.{writes}
use fuse.Mir.Builder.{
  Builder, add_inst, change_at, on_current, append_inst, emit, returning, new_reg, sealing, seal,
  new_block, begin_block, use_block, find_block, set_line,
}
use fuse.Mir.Methods.{is_binary, is_overflow, count_param}

abbrev pub count : ℕ → List ℕ → ℕ
count r [] = 0
count r (x ∷ xs) = (if x == r then 1 else 0) + count r xs

-- How many instructions write the register.
abbrev pub writers : ℕ → List Inst → ℕ
writers r [] = 0
writers r (i ∷ insts) = count r (writes i.op i) + writers r insts

abbrev pub writers_in : ℕ → List Block → ℕ
writers_in r [] = 0
writers_in r (b ∷ blocks) = writers r b.insts + writers_in r blocks

-- No register has two writers, and each that has one has been handed out, and is not `NoReg`.
pub record Fresh (b : Builder) : Type 0 where
  pub once : (r : ℕ) → writers_in r b.fn.blocks ≤ 1
  pub handed : (r : ℕ) → 1 ≤ writers_in r b.fn.blocks → r < b.fn.num_regs
  pub proper : writers_in 0 b.fn.blocks ≡ 0
  pub positive : 1 ≤ b.fn.num_regs

writers-append :
    (r : ℕ) (xs : List Inst) (i : Inst)
    → writers r (xs ++ (i ∷ [])) ≡ writers r xs + count r (writes i.op i)
writers-append r [] i = omega arith
writers-append r (x ∷ xs) i = omega (arith, writers-append r xs i)

-- The instructions that a change of a block adds.
abbrev Adds : (Block → Block) → (ℕ → ℕ) → Type 0
Adds f n = (r : ℕ) (blk : Block) → writers r (f blk).insts ≤ writers r blk.insts + n r

writers-change_at :
    (r k : ℕ) (f : Block → Block) (n : ℕ → ℕ) (blocks : List Block)
    → Adds f n
    → writers_in r (change_at k f blocks) ≤ writers_in r blocks + n r
unfolding change_at
writers-change_at r k f n [] a = omega arith
writers-change_at r zero f n (x ∷ xs) a = omega (arith, a r x)
writers-change_at r (suc k) f n (x ∷ xs) a = omega (arith, writers-change_at r k f n xs a)

-- The same registers are written, or one more that has just been handed out.
abbrev New : Builder → Builder → (ℕ → ℕ) → Type 0
New b c n =
    ((r : ℕ) → writers_in r c.fn.blocks ≤ writers_in r b.fn.blocks + n r)
    × (b.fn.num_regs ≤ c.fn.num_regs)

pub Fresh-same : (b c : Builder) → Fresh b → New b c (λ r. 0) → Fresh c
Fresh-same b c w n = record {
  once = λ r. omega (arith, w.once r, n.0 r);
  handed = λ r h. omega (arith, w.handed r (omega (arith, n.0 r)), n.1);
  proper = omega (arith, n.0 0, w.proper);
  positive = omega (arith, n.1, w.positive);
}

-- A writer more for the register that was next.
Fresh-next :
    (b c : Builder)
    → Fresh b
    → ((r : ℕ) → writers_in r c.fn.blocks ≤ writers_in r b.fn.blocks + count r (b.fn.num_regs ∷ []))
    → suc b.fn.num_regs ≤ c.fn.num_regs
    → Fresh c
Fresh-next b c w n m = record {
  once = λ r. next_once (b.fn.num_regs) r _ _ (w.once r) (w.handed r) (n r);
  handed = λ r h. next_handed (b.fn.num_regs) r _ _ (c.fn.num_regs) (w.handed r) (n r) m h;
  proper = next_proper b.fn.num_regs _ _ w.positive w.proper (n 0);
  positive = omega arith;
}
  where
    next_once : (k r x y : ℕ) → x ≤ 1 → (1 ≤ x → r < k) → y ≤ x + count r (k ∷ []) → y ≤ 1
    next_once k r x y o h n = ground arith

    next_handed :
        (k r x y m : ℕ) → (1 ≤ x → r < k) → y ≤ x + count r (k ∷ []) → suc k ≤ m → 1 ≤ y → r < m
    next_handed k r x y m h n l p = ground arith

    next_proper : (k x y : ℕ) → 1 ≤ k → x ≡ 0 → y ≤ x + count 0 (k ∷ []) → y ≡ 0
    next_proper k x y p e n = ground arith

on_current-New :
    (f : Block → Block) (n : ℕ → ℕ) (b c : Builder) → Adds f n → on_current f b ≡ some c → New b c n
unfolding on_current
on_current-New f n b c a h = at_index b.current h
  where
    at_index :
        (o : Option ℕ)
        → (elim o [
          | none ↦ none
          | some k ↦ some (record b { fn = record b.fn { blocks = change_at k f b.fn.blocks } })
        ])
          ≡ some c
        → New b c n
    at_index none h = ground arith
    at_index (some k) h =
        subst (λ d. New b d n) (some-injective _ c h)
          ((λ r. writers-change_at r k f n b.fn.blocks a), omega arith)

append_inst-New :
    (i : Inst) (b c : Builder) (n : ℕ → ℕ)
    → ((r : ℕ) → count r (writes i.op (record i { line = b.line })) ≤ n r)
    → append_inst i b ≡ some c
    → New b c n
unfolding append_inst
append_inst-New i b c n l h =
    on_current-New (add_inst (record i { line = b.line })) n b c
      (λ r blk. omega (arith, writers-append r blk.insts (record i { line = b.line }), l r)) h

-- A method without a result that writes no register.
pub append_inst-Fresh :
    (i : Inst) (b c : Builder)
    → Fresh b
    → writes i.op (record i { line = b.line }) ≡ []
    → append_inst i b ≡ some c
    → Fresh c
append_inst-Fresh i b c w e h =
    Fresh-same b c w (append_inst-New i b c (λ r. 0) (λ r. rw e (omega arith)) h)

pub seal-Fresh :
    (f : Block → Block) (b c : Builder)
    → Fresh b
    → ((blk : Block) → (f blk).insts ≡ blk.insts)
    → seal f b ≡ some c
    → Fresh c
unfolding seal
seal-Fresh f b c w keep h = of_current (on_current f b) refl h
  where
    of_current : (o : Option Builder) → on_current f b ≡ o → sealing o ≡ some c → Fresh c
    of_current none e h = ground arith
    of_current (some d) e h =
        let n = on_current-New f (λ r. 0) b d (λ r blk. rw (keep blk) (omega arith)) e in
        subst Fresh (some-injective _ c h) (Fresh-same b (record d { current = none }) w n)

pub emit-Fresh :
    (i : Inst) (b c : Builder) (r : ℕ)
    → Fresh b
    → writes i.op (record i { dst = b.fn.num_regs; line = b.line }) ≡ b.fn.num_regs ∷ []
    → emit i b ≡ some (r, c)
    → Fresh c
unfolding emit
emit-Fresh i b c r w e h =
    of_append (append_inst (record i { dst = b.fn.num_regs }) (new_reg b)) refl h
  where
    of_append :
        (o : Option Builder)
        → append_inst (record i { dst = b.fn.num_regs }) (new_reg b) ≡ o
        → returning b.fn.num_regs o ≡ some (r, c)
        → Fresh c
    of_append none e h = ground arith
    of_append (some d) g h =
        let n =
          append_inst-New (record i { dst = b.fn.num_regs }) (new_reg b) d
            (λ s. count s (b.fn.num_regs ∷ [])) (λ s. rw e (omega arith)) g in
        subst Fresh (ap (λ p. p.1) (some-injective (b.fn.num_regs, d) (r, c) h))
          (Fresh-next b d w n.0 n.1)

pub is_binary-writes : (o : Op) (i : Inst) → is_binary o ≡ true → writes o i ≡ i.dst ∷ []
is_binary-writes o i h = ground arith

pub is_overflow-writes : (o : Op) (i : Inst) → is_overflow o ≡ true → writes o i ≡ i.dst ∷ []
is_overflow-writes o i h = ground arith

writers_in-append :
    (r : ℕ) (xs ys : List Block) → writers_in r (xs ++ ys) ≡ writers_in r xs + writers_in r ys
writers_in-append r [] ys = omega arith
writers_in-append r (x ∷ xs) ys = omega (arith, writers_in-append r xs ys)

pub begin_block-Fresh : (b : Builder) → Fresh b → Fresh (begin_block b).1
unfolding begin_block
begin_block-Fresh b w = Fresh-same b (begin_block b).1 w (
  (λ r. omega (arith, writers_in-append r b.fn.blocks (new_block (length b.fn.blocks + 1) ∷ []))),
  omega arith,
)

pub use_block-Fresh : (id : ℕ) (b : Builder) → Fresh b → Fresh (use_block id b)
unfolding use_block
use_block-Fresh id b w = found (find_block id 0 b.fn.blocks)
  where
    found : (o : Option ℕ) → Fresh (elim o [ none ↦ b | some k ↦ record b { current = some k } ])
    found none = w
    found (some k) =
        Fresh-same b (record b { current = some k }) w ((λ r. omega arith), omega arith)

pub set_line-Fresh : (l : ℤ) (b : Builder) → Fresh b → Fresh (set_line l b)
unfolding set_line
set_line-Fresh (pos n) b w =
    Fresh-same b (record b { line = n }) w ((λ r. omega arith), omega arith)
set_line-Fresh (negsuc n) b w =
    Fresh-same b (record b { line = 0 }) w ((λ r. omega arith), omega arith)

pub count_param-Fresh : (l : ℤ) (b : Builder) → Fresh b → Fresh (count_param l b)
unfolding count_param
count_param-Fresh (negsuc n) b w = w
count_param-Fresh (pos n) b w = elim (Bool-cases (ltb b.fn.num_params (suc n))) [
  | inl e ↦ rw e (Fresh-same b _ w ((λ r. omega arith), omega arith))
  | inr e ↦ rw e w
]
