-- ===== src/Lex.antt =====
-- compiler/lex: the scanner, from bytes to tokens with spans.
pub mod Token
pub mod TokenNames
pub mod Utf8
pub mod Cursor
pub mod Scanner
pub mod Literals
pub mod Punct
pub mod Run
mod Tests
pub mod Moves
pub mod Scans
pub mod Tiles
pub mod Trivia
pub mod Tokenized
pub mod Comments
pub mod Nested
pub mod LineComments
pub mod Longest
