-- ===== src/Lex/Moves.antt =====
-- The cursor moves of compiler/lex/scanner.go as a relation between cursors.
use fuse.Prelude.{
  ℕ, zero, suc, ◌+◌, ◌≤◌, ◌<◌, Bool, true, false, Bool-cases, ◌==◌, leb, [], ◌∷◌, ◌++◌,
  append_assoc, length, length-append, take-append-drop, length-take_le, ◌&&◌, drop, take, Bytes,
  ◌≡◌, refl, sym, ap, ◌∙◌, ◌≢◌, List-cases, length-zero, inl, inr, arith,
}
use mathlib.Core.Path.{subst}
use fuse.Lex.Utf8.{Rune, rune_error, decode_rune}
use fuse.Lex.Cursor.{
  Cursor, advance_byte, advance_rune, advance_while, advance_bytes, carriage_return,
  advance_rune_over, advance_decoded,
}

-- The cursor has gone over the bytes `pre`.
pub record Moves (c d : Cursor) : Type 0 where
  pub pre : Bytes
  pub split : c.rest ≡ pre ++ d.rest
  pub gone : d.off ≡ c.off + length pre

-- At least one byte has been gone over.
pub record Advances (c d : Cursor) : Type 0 where
  pub moves : Moves c d
  pub onward : c.off < d.off

pub Moves-refl : (c : Cursor) → Moves c c
Moves-refl c = record { pre = []; split = refl; gone = omega arith }

pub Moves-trans : {c d e : Cursor} → Moves c d → Moves d e → Moves c e
Moves-trans {c} {d} {e} m n = record {
  pre = m.pre ++ n.pre;
  split = m.split ∙ ap (λ r. m.pre ++ r) n.split ∙ sym (append_assoc m.pre n.pre e.rest);
  gone = omega (arith, length-append m.pre n.pre);
}

pub Moves-off : {c d : Cursor} → Moves c d → c.off ≤ d.off
Moves-off m = omega arith

pub Moves-length : {c d : Cursor} → Moves c d → d.off + length d.rest ≡ c.off + length c.rest
Moves-length {c} {d} m = omega (arith, length-append m.pre d.rest, ap length m.split)

pub Advances-Moves : {c d e : Cursor} → Advances c d → Moves d e → Advances c e
Advances-Moves a n = record { moves = Moves-trans a.moves n; onward = omega (arith, Moves-off n) }

pub Moves-Advances : {c d e : Cursor} → Moves c d → Advances d e → Advances c e
Moves-Advances m a = record { moves = Moves-trans m a.moves; onward = omega (arith, Moves-off m) }

abbrev cursor : Bytes → ℕ → ℕ → ℕ → Cursor
cursor rest off line col = record { rest = rest; off = off; line = line; col = col }

over :
    (n : ℕ) (rest : Bytes) (off line col line' col' : ℕ)
    → n ≤ length rest
    → Moves (cursor rest off line col) (cursor (drop n rest) (off + n) line' col')
over n rest off line col line' col' h = record {
  pre = take n rest;
  split = sym (take-append-drop n rest);
  gone = omega (arith, length-take_le n rest h);
}

-- One byte more gone over than `n`.
over_one :
    (n : ℕ) (rest : Bytes) {b : ℕ} {r : Bytes} (off line col line' col' : ℕ)
    → n ≤ length rest
    → drop n rest ≡ b ∷ r
    → Moves (cursor rest off line col) (cursor r (off + n + 1) line' col')
over_one n rest {b} {r} off line col line' col' h e =
    Moves-trans (over n rest off line col line col h)
      record { pre = b ∷ []; split = e; gone = omega arith }

by_one :
    (b : ℕ) (r : Bytes) (off line col line' col' : ℕ)
    → Advances (cursor (b ∷ r) off line col) (cursor r (off + 1) line' col')
by_one b r off line col line' col' = record {
  moves = record { pre = b ∷ []; split = refl; gone = omega arith };
  onward = omega arith;
}

carriage_return-Moves :
    (n : ℕ) (rest : Bytes) (off line col : ℕ) (after : Bytes)
    → n ≤ length rest
    → drop n rest ≡ after
    → Moves (cursor rest off line col) (carriage_return n after (cursor rest off line col))
unfolding carriage_return
carriage_return-Moves n rest off line col [] h e =
    subst (λ after. Moves (cursor rest off line col) (cursor after (off + n) (line + 1) 1)) e
      (over n rest off line col _ _ h)
carriage_return-Moves n rest off line col (b ∷ r) h e = elim (Bool-cases (b == b'\n')) [
  | inl f ↦ rw f (over_one n rest off line col _ _ h e)
  | inr f ↦ rw f (
      subst (λ after. Moves (cursor rest off line col) (cursor after (off + n) (line + 1) 1)) e
        (over n rest off line col _ _ h))
]

carriage_return-off :
    (n : ℕ) (after : Bytes) (c : Cursor) → c.off + n ≤ (carriage_return n after c).off
unfolding carriage_return
carriage_return-off n [] c = omega arith
carriage_return-off n (b ∷ r) c = ground arith

advance_over-Advances :
    (a : ℕ) (r : Bytes) (off line col : ℕ)
    → Advances (cursor (a ∷ r) off line col) (advance_byte (cursor (a ∷ r) off line col))
unfolding advance_byte
advance_over-Advances a r off line col = elim (Bool-cases (a == b'\n')) [
  | inl e ↦ rw e (by_one a r off line col _ _)
  | inr e ↦ elim (Bool-cases (a == b'\r')) [
    | inl f ↦
        rw (e, f)
          record {
            moves = carriage_return-Moves 1 (a ∷ r) off line col r (omega arith) refl;
            onward = omega (arith, carriage_return-off 1 r (cursor (a ∷ r) off line col));
          }
    | inr f ↦ rw (e, f) (by_one a r off line col _ _)
  ]
]

advance_byte-Advances_cons :
    (c : Cursor) (a : ℕ) (r : Bytes) → c.rest ≡ a ∷ r → Advances c (advance_byte c)
advance_byte-Advances_cons c a r h =
    subst
      (λ rest.
        Advances (cursor rest c.off c.line c.col) (advance_byte (cursor rest c.off c.line c.col)))
      (sym h) (advance_over-Advances a r c.off c.line c.col)

advance_byte_nil :
    (off line col : ℕ) → Moves (cursor [] off line col) (advance_byte (cursor [] off line col))
unfolding advance_byte
advance_byte_nil off line col = Moves-refl _

advance_byte_any :
    (rest : Bytes) (off line col : ℕ)
    → Moves (cursor rest off line col) (advance_byte (cursor rest off line col))
advance_byte_any [] off line col = advance_byte_nil off line col
advance_byte_any (a ∷ r) off line col = (advance_over-Advances a r off line col).moves

pub advance_byte-Moves : (c : Cursor) → Moves c (advance_byte c)
advance_byte-Moves c = advance_byte_any c.rest c.off c.line c.col

-- A byte at hand is gone over.
pub advance_byte-Advances : (c : Cursor) → c.rest ≢ [] → Advances c (advance_byte c)
advance_byte-Advances c h = elim (List-cases c.rest) [
  | inl e ↦ absurd (h e)
  | inr (a, r, e) ↦ advance_byte-Advances_cons c a r e
]

advance_decoded-Advances :
    (d : Rune) (rest : Bytes) (off line col : ℕ)
    → rest ≢ []
    → 0 < d.width
    → d.width ≤ length rest
    → Advances (cursor rest off line col) (advance_decoded d (cursor rest off line col))
unfolding advance_decoded
advance_decoded-Advances d rest off line col some_byte h k =
    elim (Bool-cases (d.value == rune_error && leb d.width 1)) [
      | inl e ↦ rw e (advance_byte-Advances (cursor rest off line col) some_byte)
      | inr e ↦ elim (Bool-cases (d.value == b'\n')) [
        | inl f ↦
            rw (e, f) record { moves = over d.width rest off line col _ _ k; onward = omega arith }
        | inr f ↦ elim (Bool-cases (d.value == b'\r')) [
          | inl g ↦
              rw (e, f, g)
                record {
                  moves = carriage_return-Moves d.width rest off line col _ k refl;
                  onward = omega (
                    arith,
                    carriage_return-off d.width (drop d.width rest) (cursor rest off line col),
                  );
                }
          | inr g ↦
              rw (e, f, g)
                record { moves = over d.width rest off line col _ _ k; onward = omega arith }
        ]
      ]
    ]

decode_rune-width :
    (b : ℕ) (r : Bytes)
    → (0 < (decode_rune (b ∷ r)).width) × ((decode_rune (b ∷ r)).width ≤ length (b ∷ r))
unfolding decode_rune
decode_rune-width b [] = ground arith
decode_rune-width b (b1 ∷ []) = ground arith
decode_rune-width b (b1 ∷ b2 ∷ []) = ground arith
decode_rune-width b (b1 ∷ b2 ∷ b3 ∷ r) = ground arith

advance_rune_over-Advances :
    (b : ℕ) (r : Bytes) (off line col : ℕ)
    → Advances (cursor (b ∷ r) off line col) (advance_rune (cursor (b ∷ r) off line col))
unfolding advance_rune advance_rune_over
advance_rune_over-Advances b r off line col =
    let (pos_width, in_source) = decode_rune-width b r in
    advance_decoded-Advances (decode_rune (b ∷ r)) (b ∷ r) off line col (λ e. cc) pos_width
      in_source

advance_rune_nil :
    (off line col : ℕ) → Moves (cursor [] off line col) (advance_rune (cursor [] off line col))
unfolding advance_rune advance_rune_over
advance_rune_nil off line col = Moves-refl _

advance_rune_any :
    (rest : Bytes) (off line col : ℕ)
    → Moves (cursor rest off line col) (advance_rune (cursor rest off line col))
advance_rune_any [] off line col = advance_rune_nil off line col
advance_rune_any (a ∷ r) off line col = (advance_rune_over-Advances a r off line col).moves

pub advance_rune-Moves : (c : Cursor) → Moves c (advance_rune c)
advance_rune-Moves c = advance_rune_any c.rest c.off c.line c.col

pub advance_rune-Advances : (c : Cursor) → c.rest ≢ [] → Advances c (advance_rune c)
advance_rune-Advances c h = elim (List-cases c.rest) [
  | inl e ↦ absurd (h e)
  | inr (a, r, e) ↦
      subst
        (λ rest.
          Advances (cursor rest c.off c.line c.col) (advance_rune (cursor rest c.off c.line c.col)))
        (sym e) (advance_rune_over-Advances a r c.off c.line c.col)
]

pub advance_bytes-Moves : (n : ℕ) (c : Cursor) → Moves c (advance_bytes n c)
unfolding advance_bytes
advance_bytes-Moves zero c = Moves-refl c
advance_bytes-Moves (suc n) c =
    Moves-trans (advance_byte-Moves c) (advance_bytes-Moves n (advance_byte c))

pub advance_bytes-Advances :
    (n : ℕ) (c : Cursor) → c.rest ≢ [] → Advances c (advance_bytes (suc n) c)
unfolding advance_bytes
advance_bytes-Advances n c h =
    Advances-Moves (advance_byte-Advances c h) (advance_bytes-Moves n (advance_byte c))

module _ (test : Bytes → Bool) (move : Cursor → Cursor)
    (each : (c : Cursor) → Moves c (move c)) where
  pub advance_while-Moves : (fuel : ℕ) (c : Cursor) → Moves c (advance_while fuel test move c)
  unfolding advance_while
  advance_while-Moves zero c = Moves-refl c
  advance_while-Moves (suc fuel) c = elim (Bool-cases (test c.rest)) [
    | inl e ↦ rw (e, advance_while) (Moves-trans (each c) (advance_while-Moves fuel (move c)))
    | inr e ↦ rw (e, advance_while) (Moves-refl c)
  ]

  pub advance_while-Advances :
      (fuel : ℕ) (c : Cursor)
      → 0 < fuel
      → test c.rest ≡ true
      → Advances c (move c)
      → Advances c (advance_while fuel test move c)
  unfolding advance_while
  advance_while-Advances zero c h e a = absurd (omega arith)
  advance_while-Advances (suc fuel) c h e a =
      rw (e, advance_while) (Advances-Moves a (advance_while-Moves fuel (move c)))

  -- Enough fuel: the loop ends where its test fails.
  pub advance_while_ends :
      (fuel : ℕ) (c : Cursor)
      → ((d : Cursor) → test d.rest ≡ true → d.off < (move d).off)
      → test [] ≡ false
      → length c.rest ≤ fuel
      → test (advance_while fuel test move c).rest ≡ false
  unfolding advance_while
  advance_while_ends zero c go at_end h = rw (length-zero c.rest (omega arith)) at_end
  advance_while_ends (suc fuel) c go at_end h = elim (Bool-cases (test c.rest)) [
    | inl e ↦
        rw (e, advance_while)
          (advance_while_ends fuel (move c) go at_end
            (omega (arith, go c e, Moves-length (each c))))
    | inr e ↦ rw (e, advance_while) e
  ]
