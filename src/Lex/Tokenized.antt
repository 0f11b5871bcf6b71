-- ===== src/Lex/Tokenized.antt =====
-- `Run` of compiler/lex/scanner.go: its loop, its invariant and its result.
use mathlib.Core.Path.{subst}
use fuse.Prelude.{
  ℕ, zero, suc, ◌≤◌, ◌<◌, Bool, true, false, Bool-cases, if◌then◌else◌, List, [], ◌∷◌, ◌++◌, length,
  length-zero, Bytes, ◌≡◌, refl, sym, ap, ◌≢◌, ◌⊎◌, inl, inr, arith,
}
use native.Mathlib.Nat.{le_refl}
use fuse.Lex.Token.{eof}
use fuse.Lex.Utf8.{Unicode}
use fuse.Lex.Cursor.{pos, advance_bytes}
use fuse.Lex.Scanner.{
  Scanner, Token, slice, byte_order_mark, move, report, stop, emit_eof, check_bom, skip_trivia,
}
use fuse.Lex.Run.{scan_one, finished, run_loop, new_scanner, scanned, run}
use fuse.Lex.Moves.{Moves, Moves-refl, Moves-trans, Moves-off, Moves-length, advance_bytes-Moves}
use fuse.Lex.Scans.{Scans, token, problem}
use fuse.Lex.Scans.One.{scan_one-Scans}
use fuse.Lex.Tiles.{IsAt, Tiles, Tiles-append, covered}
use fuse.Lex.Trivia.{Skips, over, open_comment, skip_trivia-Skips}

record Inv (src : Bytes) (s : Scanner) : Type 0 where
  source : s.src ≡ src
  moved : Moves (new_scanner src).cur s.cur
  tiles : Tiles src 0 s.tokens s.cur.off
  reported : s.stopped ≡ true → s.errs ≢ []

append-ne-nil {ℓ} : {A : Type ℓ} (xs : List A) (x : A) → (xs ++ x ∷ []) ≢ []
append-ne-nil [] x e = cc
append-ne-nil (y ∷ xs) x e = cc

Tiles-weaken :
    (src : Bytes) (lo mid hi : ℕ) (ts : List Token)
    → Tiles src lo ts mid
    → mid ≤ hi
    → Tiles src lo ts hi
Tiles-weaken src lo mid hi [] h k = omega arith
Tiles-weaken src lo mid hi (t ∷ ts) (a, b, c, d) k = (a, b, c, Tiles-weaken src _ mid hi ts d k)

module _ (src : Bytes) where
  Scans-Inv : {s t : Scanner} → Inv src s → Scans s t → Inv src t
  Scans-Inv {s} i (token c kind a e) = subst (Inv src) (sym e) record {
    source = i.source;
    moved = Moves-trans i.moved a.moves;
    tiles = Tiles-append src 0 s.cur.off c.off s.tokens _ i.tiles (
      le_refl s.cur.off,
      a.onward,
      subst
          (λ from. IsAt src (record {
            kind = kind;
            text = slice from s.cur.off c.off;
            span = record { start = pos s.cur; end = pos c };
          }))
          (sym i.source) (covered src (new_scanner src).cur s.cur c refl refl i.moved a kind),
      le_refl c.off,
    );
    reported = i.reported;
  }
  Scans-Inv {s} i (problem c p halts a e) = subst (Inv src) (sym e) record {
    source = i.source;
    moved = Moves-trans i.moved a.moves;
    tiles = Tiles-weaken src 0 s.cur.off c.off s.tokens i.tiles (omega arith);
    reported = λ _. append-ne-nil s.errs _;
  }

  Skips-Inv : {s t : Scanner} → Inv src s → Skips s t → Inv src t
  Skips-Inv {s} i (over c m e) = subst (Inv src) (sym e) record {
    source = i.source;
    moved = Moves-trans i.moved m;
    tiles = Tiles-weaken src 0 s.cur.off c.off s.tokens i.tiles (Moves-off m);
    reported = i.reported;
  }
  Skips-Inv {s} i (open_comment c d m n e) = subst (Inv src) (sym e) record {
    source = i.source;
    moved = Moves-trans i.moved (Moves-trans m n);
    tiles = Tiles-weaken src 0 s.cur.off d.off s.tokens i.tiles (Moves-off (Moves-trans m n));
    reported = λ _. append-ne-nil s.errs _;
  }

  check_bom-Inv : Inv src (check_bom (new_scanner src))
  unfolding check_bom
  check_bom-Inv = by_test _
    where
      fresh : Inv src (new_scanner src)
      fresh = record {
        source = refl;
        moved = Moves-refl _;
        tiles = omega arith;
        reported = λ e. cc;
      }

      by_test :
          (b : Bool)
          → Inv src (
              if b
              then stop (
                  report
                    (pos (new_scanner src).cur)
                    byte_order_mark
                    (move (advance_bytes 3) (new_scanner src)))
              else new_scanner src)
      by_test true = record {
        source = refl;
        moved = advance_bytes-Moves 3 _;
        tiles = omega arith;
        reported = λ _ e. cc;
      }
      by_test false = fresh

pub finished_nil : (s : Scanner) → s.cur.rest ≡ [] → finished s ≡ true
unfolding finished
finished_nil s e = ground arith

unfinished : (s : Scanner) → finished s ≡ false → s.cur.rest ≢ []
unfinished s e n = cc (finished_nil s n)

-- `finished` at a scanner that has not stopped: the source is used up.
finished_end : (s : Scanner) → finished s ≡ true → (s.stopped ≡ true) ⊎ (s.cur.rest ≡ [])
unfolding finished
finished_end s e = ground arith

Skips-length : {s t : Scanner} → Skips s t → length t.cur.rest ≤ length s.cur.rest
Skips-length (over c m e) =
    rw (ap (λ (r : Scanner). length r.cur.rest) e) (omega (arith, Moves-length m, Moves-off m))
Skips-length (open_comment c d m n e) =
    rw (ap (λ (r : Scanner). length r.cur.rest) e)
      (omega (arith, Moves-length (Moves-trans m n), Moves-off (Moves-trans m n)))

Scans-length : {s t : Scanner} → Scans s t → length t.cur.rest < length s.cur.rest
Scans-length (token c k a e) =
    rw (ap (λ (r : Scanner). length r.cur.rest) e) (omega (arith, Moves-length a.moves))
Scans-length (problem c p halts a e) =
    rw (ap (λ (r : Scanner). length r.cur.rest) e) (omega (arith, Moves-length a.moves))

-- With fuel for every byte that is left the loop ends by its own test.
run_loop-Inv :
    (u : Unicode) (src : Bytes) (fuel : ℕ) (s : Scanner)
    → length s.cur.rest ≤ fuel
    → Inv src s
    → Inv src (run_loop u fuel s) × (finished (run_loop u fuel s) ≡ true)
unfolding run_loop
run_loop-Inv u src zero s h i = (i, finished_nil s (length-zero s.cur.rest (omega arith)))
run_loop-Inv u src (suc fuel) s h i = elim (Bool-cases (finished s)) [
  | inl e ↦ subst Done (sym (stops e)) (i, e)
  | inr e ↦ elim (Bool-cases (finished t)) [
    | inl f ↦ subst Done (sym (skips e f)) (Skips-Inv src i skip, f)
    | inr f ↦
        let one = scan_one-Scans u t (unfinished t f) in
        subst Done (sym (goes_on e f)) (
          run_loop-Inv u src fuel (scan_one u t)
            (omega (arith, Skips-length skip, Scans-length one))
            (Scans-Inv src (Skips-Inv src i skip) one))
  ]
]
  where
    t : Scanner
    t = skip_trivia (length s.cur.rest) s

    skip : Skips s t
    skip = skip_trivia-Skips (length s.cur.rest) s

    Done : Scanner → Type 0
    Done r = Inv src r × (finished r ≡ true)

    stops : finished s ≡ true → run_loop u (suc fuel) s ≡ s
    stops e = simp (e, run_loop)

    skips : finished s ≡ false → finished t ≡ true → run_loop u (suc fuel) s ≡ t
    skips e f = simp (e, f, run_loop)

    goes_on :
        finished s ≡ false
        → finished t ≡ false
        → run_loop u (suc fuel) s ≡ run_loop u fuel (scan_one u t)
    goes_on e f = simp (e, f, run_loop)

-- What `Run` leaves: tokens in order, then one end token, at the end of the source unless an error
-- has been reported.
pub record Tokenized (src : Bytes) (s : Scanner) : Type 0 where
  pub body : List Token
  pub last : Token
  pub all_tokens : s.tokens ≡ body ++ last ∷ []
  pub is_end : (last.kind ≡ eof) × (last.text ≡ []) × (last.span.start ≡ last.span.end)
  pub tiles : Tiles src 0 body last.span.start.offset
  pub inside : last.span.start.offset ≤ length src
  pub complete : s.errs ≡ [] → last.span.start.offset ≡ length src

emit_eof-Tokenized :
    (src : Bytes) (s : Scanner) → Inv src s → finished s ≡ true → Tokenized src (emit_eof s)
unfolding emit_eof
emit_eof-Tokenized src s i f = record {
  body = s.tokens;
  last = record { kind = eof; text = []; span = record { start = pos s.cur; end = pos s.cur } };
  all_tokens = refl;
  is_end = (refl, refl, refl);
  tiles = i.tiles;
  inside = omega (arith, Moves-length i.moved);
  complete = λ none_reported. elim (finished_end s f) [
    | inl halted ↦ absurd (i.reported halted none_reported)
    | inr at_end ↦ omega (arith, Moves-length i.moved, ap length at_end)
  ];
}

check_bom-length : (src : Bytes) → length (check_bom (new_scanner src)).cur.rest ≤ length src
check_bom-length src = omega (arith, Moves-length (check_bom-Inv src).moved)

-- `Run` ends on every source. The tokens before the last are never empty, stand in order without
-- overlap, and each has for its text exactly the bytes that its span covers. The last is the one end
-- token, empty, behind all others and inside the source. If no diagnostic has been reported, it
-- stands at the very end of the source.
pub run-Tokenized : (u : Unicode) (src : Bytes) → Tokenized src (run u src)
unfolding run scanned
run-Tokenized u src =
    let (i, f) =
      run_loop-Inv u src (length src) (check_bom (new_scanner src)) (check_bom-length src)
        (check_bom-Inv src) in
    emit_eof-Tokenized src _ i f
