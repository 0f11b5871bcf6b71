-- ===== src/Mir/Ready.antt =====
-- The Builder of compiler/mir beside `Validate`: the state of an open block.
use fuse.Prelude.{
  ℕ, ◌+◌, ◌≤◌, List, [], ◌∷◌, ◌++◌, length, Option, none, some, ◌≡◌, ◌≢◌, refl, sym, ◌∙◌, ap, arith,
}
use mathlib.Core.Path.{subst}
use mathlib.Core.Option.{some-injective}
use fuse.Mir.Types.{Inst, Block, ok, at_place}
use fuse.Mir.Validate.{Regs, check_op, check_term, check_insts, check_blocks}
use fuse.Mir.Stream.{>>=-eq-ok}
use fuse.Mir.Builder.{
  Builder, add_inst, change_at, on_current, append_inst, emit, returning, new_reg, sealing, seal,
  new_block, begin_block,
}

-- The blocks before the current one, which is the last, are accepted, and so are its instructions:
-- `d` are the registers defined behind them.
pub record Ready (b : Builder) (d : Regs) : Type 0 where
  pub before : List Block
  pub last : Block
  pub seen : Regs
  pub shape : b.fn.blocks ≡ before ++ (last ∷ [])
  pub points : b.current ≡ some (length before)
  pub accepted : check_blocks [] before ≡ ok seen
  pub runs : check_insts last.id 0 seen last.insts ≡ ok d
  pub no_result : last.return_reg ≡ 0
  pub positive : 1 ≤ b.fn.num_regs

-- Every block is accepted, and none is current.
pub record Sealed (b : Builder) (d : Regs) : Type 0 where
  pub accepted : check_blocks [] b.fn.blocks ≡ ok d
  pub positive : 1 ≤ b.fn.num_regs

change_at-last :
    (f : Block → Block) (xs : List Block) (x : Block)
    → change_at (length xs) f (xs ++ (x ∷ [])) ≡ xs ++ (f x ∷ [])
unfolding change_at
change_at-last f [] x = refl
change_at-last f (y ∷ xs) x = ap (λ l. y ∷ l) (change_at-last f xs x)

check_insts-append :
    (id n : ℕ) (d e e' : Regs) (xs : List Inst) (i : Inst)
    → check_insts id n d xs ≡ ok e
    → check_op i.op e i ≡ ok e'
    → check_insts id n d (xs ++ (i ∷ [])) ≡ ok e'
unfolding check_insts
check_insts-append id n d e e' [] i h k = let same : d ≡ e = ground arith in rw (same, k) refl
check_insts-append id n d e e' (x ∷ xs) i h k =
    let (f, m, r) = >>=-eq-ok (at_place id (some n) (check_op x.op d x)) _ h in
    rw m (check_insts-append id (n + 1) f e e' xs i r k)

check_blocks-append :
    (d e f : Regs) (xs : List Block) (x : Block)
    → check_blocks d xs ≡ ok e
    → check_insts x.id 0 e x.insts ≡ ok f
    → check_term x.term f x ≡ ok tt
    → check_blocks d (xs ++ (x ∷ [])) ≡ ok f
unfolding check_blocks
check_blocks-append d e f [] x h k l = let same : d ≡ e = ground arith in rw (same, k, l) refl
check_blocks-append d e f (y ∷ xs) x h k l =
    let (a, m, r) = >>=-eq-ok (check_insts y.id 0 d y.insts) _ h in
    let (t, n, q) = >>=-eq-ok (at_place y.id none (check_term y.term a y)) _ r in
    rw (m, n) (check_blocks-append a e f xs x q k l)

-- The builder after a change of the current block.
changed : (b : Builder) (d : Regs) → Ready b d → (Block → Block) → Builder
changed b d w f = record b { fn = record b.fn { blocks = w.before ++ (f w.last ∷ []) } }

on_current-changed :
    (f : Block → Block) (b : Builder) (d : Regs) (w : Ready b d)
    → on_current f b ≡ some (changed b d w f)
unfolding on_current changed
on_current-changed f b d w = rw (w.points, w.shape, change_at-last f w.before w.last) refl

on_current-Ready :
    (f : Block → Block) (b c : Builder) (d e : Regs) (w : Ready b d)
    → (f w.last).id ≡ w.last.id
    → check_insts w.last.id 0 w.seen (f w.last).insts ≡ ok e
    → (f w.last).return_reg ≡ 0
    → on_current f b ≡ some c
    → Ready c e
unfolding changed
on_current-Ready f b c d e w p q r h =
    subst (λ x. Ready x e) (some-injective _ c (sym (on_current-changed f b d w) ∙ h))
      (record {
        before = w.before;
        last = f w.last;
        seen = w.seen;
        shape = refl;
        points = w.points;
        accepted = w.accepted;
        runs = subst (λ id. check_insts id 0 w.seen (f w.last).insts ≡ ok e) (sym p) q;
        no_result = r;
        positive = w.positive;
      })

-- An instruction that `Validate` accepts keeps an open block ready.
pub append_inst-Ready :
    (i : Inst) (b c : Builder) (d e : Regs)
    → Ready b d
    → check_op i.op d (record i { line = b.line }) ≡ ok e
    → append_inst i b ≡ some c
    → Ready c e
unfolding append_inst
append_inst-Ready i b c d e w k h =
    on_current-Ready (add_inst (record i { line = b.line })) b c d e w refl
      (check_insts-append w.last.id 0 w.seen d e w.last.insts (record i { line = b.line }) w.runs k)
      w.no_result h

-- So does one with a new register for its result, which is then defined.
pub emit-Ready :
    (i : Inst) (b c : Builder) (r : ℕ) (d : Regs)
    → Ready b d
    → ((n : ℕ) → n ≢ 0 → check_op i.op d (record i { dst = n; line = b.line }) ≡ ok (n ∷ d))
    → emit i b ≡ some (r, c)
    → Ready c (r ∷ d)
unfolding emit new_reg
emit-Ready i b c r d w k h =
    of_append (append_inst (record i { dst = b.fn.num_regs }) (new_reg b)) refl h
  where
    next_ready : Ready (new_reg b) d
    next_ready = record {
      before = w.before;
      last = w.last;
      seen = w.seen;
      shape = w.shape;
      points = w.points;
      accepted = w.accepted;
      runs = w.runs;
      no_result = w.no_result;
      positive = omega arith;
    }

    of_append :
        (o : Option Builder)
        → append_inst (record i { dst = b.fn.num_regs }) (new_reg b) ≡ o
        → returning b.fn.num_regs o ≡ some (r, c)
        → Ready c (r ∷ d)
    of_append none e h = ground arith
    of_append (some a) e h =
        subst (λ (p : ℕ × Builder). Ready p.1 (p.0 ∷ d))
          (some-injective (b.fn.num_regs, a) (r, c) h)
          (append_inst-Ready (record i { dst = b.fn.num_regs }) (new_reg b) a d (b.fn.num_regs ∷ d)
            next_ready (k b.fn.num_regs (ground (arith, w.positive))) e)

-- A terminator that `Validate` accepts seals the block.
pub seal-Sealed :
    (f : Block → Block) (b c : Builder) (d : Regs) (w : Ready b d)
    → ((x : Block) → (f x).id ≡ x.id)
    → ((x : Block) → (f x).insts ≡ x.insts)
    → check_term (f w.last).term d (f w.last) ≡ ok tt
    → seal f b ≡ some c
    → Sealed c d
unfolding seal changed
seal-Sealed f b c d w p q t h =
    let same =
      some-injective (record (changed b d w f) { current = none }) c
        (sym (ap sealing (on_current-changed f b d w)) ∙ h) in
    let runs =
      subst (λ insts. check_insts (f w.last).id 0 w.seen insts ≡ ok d) (sym (q w.last))
        (subst (λ id. check_insts id 0 w.seen w.last.insts ≡ ok d) (sym (p w.last)) w.runs) in
    subst (λ x. Sealed x d) same
      (record {
        accepted = check_blocks-append [] w.seen d w.before (f w.last) w.accepted runs t;
        positive = w.positive;
      })

-- A new block after accepted ones is ready.
pub begin_block-Ready : (b : Builder) (d : Regs) → Sealed b d → Ready (begin_block b).1 d
unfolding begin_block check_insts
begin_block-Ready b d s = record {
  before = b.fn.blocks;
  last = new_block (length b.fn.blocks + 1);
  seen = d;
  shape = refl;
  points = refl;
  accepted = s.accepted;
  runs = refl;
  no_result = refl;
  positive = s.positive;
}
