-- ===== src/Lex/Utf8.antt =====
-- Go's `utf8.DecodeRune` and the classes of `unicode`, as compiler/lex/scanner.go uses them.
-- A byte is a number. Above U+007F the tables of `unicode` are parameters.
use fuse.Prelude.{
  ℕ, ◌+◌, ◌-◌, ◌*◌, Bool, true, ◌&&◌, ◌||◌, ltb, leb, ◌==◌, if◌then◌else◌, [], ◌∷◌, Bytes,
}

-- `unicode.IsLetter` and `unicode.IsDigit` outside ASCII.
pub record Unicode : Type 0 where
  pub letter : ℕ → Bool
  pub digit : ℕ → Bool

abbrev pub within : ℕ → ℕ → ℕ → Bool
within lo hi r = leb lo r && leb r hi

unfoldable pub is_letter : Unicode → ℕ → Bool
is_letter u r = if ltb r 128 then within b'a' b'z' r || within b'A' b'Z' r else u.letter r

unfoldable pub is_digit : Unicode → ℕ → Bool
is_digit u r = if ltb r 128 then within b'0' b'9' r else u.digit r

-- `isIdentStart`.
unfoldable pub is_ident_start : Unicode → ℕ → Bool
unfolding is_letter
is_ident_start u r = if r == b'_' then true else is_letter u r

-- `isIdentContinue`.
unfoldable pub is_ident_continue : Unicode → ℕ → Bool
unfolding is_letter is_digit
is_ident_continue u r = if r == b'_' then true else is_letter u r || is_digit u r

-- `isDecDigit`, `isHexDigit`, `isOctDigit` and `isBinDigit`.
unfoldable pub is_dec_digit : ℕ → Bool
is_dec_digit r = within b'0' b'9' r

unfoldable pub is_hex_digit : ℕ → Bool
is_hex_digit r = within b'0' b'9' r || within b'a' b'f' r || within b'A' b'F' r

unfoldable pub is_oct_digit : ℕ → Bool
is_oct_digit r = within b'0' b'7' r

unfoldable pub is_bin_digit : ℕ → Bool
is_bin_digit r = r == b'0' || r == b'1'

-- A rune and its width in bytes.
pub record Rune : Type 0 where
  pub value : ℕ
  pub width : ℕ

-- `utf8.RuneError`.
abbrev pub rune_error : ℕ
rune_error = 0xfffd

abbrev pub malformed : Rune
malformed = record { value = rune_error; width = 1 }

continuation : ℕ → Bool
continuation b = within 0x80 0xbf b

two_bytes : ℕ → Bytes → Rune
two_bytes b0 (b1 ∷ _) =
    if continuation b1
    then record { value = (b0 - 0xc0) * 64 + (b1 - 0x80); width = 2 }
    else malformed
two_bytes b0 _ = malformed

-- The second byte lies in `[lo, hi]`.
three_bytes : ℕ → ℕ → ℕ → Bytes → Rune
three_bytes lo hi b0 (b1 ∷ b2 ∷ _) =
    if within lo hi b1 && continuation b2
    then record { value = (b0 - 0xe0) * 4096 + (b1 - 0x80) * 64 + (b2 - 0x80); width = 3 }
    else malformed
three_bytes lo hi b0 _ = malformed

four_bytes : ℕ → ℕ → ℕ → Bytes → Rune
four_bytes lo hi b0 (b1 ∷ b2 ∷ b3 ∷ _) =
    if within lo hi b1 && (continuation b2 && continuation b3)
    then record {
      value = (b0 - 0xf0) * 262144 + (b1 - 0x80) * 4096 + (b2 - 0x80) * 64 + (b3 - 0x80);
      width = 4;
    }
    else malformed
four_bytes lo hi b0 _ = malformed

-- `utf8.DecodeRune`: on an encoding that is not well formed, `rune_error` of width 1.
unfoldable pub decode_rune : Bytes → Rune
unfolding two_bytes three_bytes four_bytes continuation
decode_rune [] = record { value = rune_error; width = 0 }
decode_rune (b ∷ rest) =
    if ltb b 0x80
    then record { value = b; width = 1 }
    else if within 0xc2 0xdf b
    then two_bytes b rest
    else if b == 0xe0
    then three_bytes 0xa0 0xbf b rest
    else if b == 0xed
    then three_bytes 0x80 0x9f b rest
    else if within 0xe1 0xef b
    then three_bytes 0x80 0xbf b rest
    else if b == 0xf0
    then four_bytes 0x90 0xbf b rest
    else if b == 0xf4
    then four_bytes 0x80 0x8f b rest
    else if within 0xf1 0xf3 b
    then four_bytes 0x80 0xbf b rest
    else malformed
