-- ===== src/Lib.antt =====
-- Models of the core of the Fuse compiler, with the theorems that make it correct.
--
-- The compiler turns source bytes into tokens (compiler/lex), keeps or leaves out items by their
-- `@cfg` conditions (compiler/resolve), checks match expressions for missing and unreachable arms
-- (compiler/check), and keeps each lowered function as blocks of instructions over virtual
-- registers (compiler/mir). Before a build, compiler/pkg chooses one version of each package that
-- the manifest asks for. Types are numbers of a table (compiler/typetable) that interns them, and
-- compiler/consteval evaluates the constants of a checked program over that table. These seven parts
-- are modelled. They share no state: a part reads the finished result of an earlier pass. Consteval
-- reads the table of Typetable to learn the width and the sign of an integer type.
--
-- Prelude: what all parts use: Boolean tests on native numbers, lists, bytes, signed integers
--   (Prelude.Int), maps with string keys (Prelude.Maps), the sorting of strings (Prelude.Sort) and
--   decimal numbers (Prelude.Decimal).
--   A Go string or []byte is a list of numbers; a Go map is an association list in which a later
--   entry hides an earlier one.
--
-- Lex: compiler/lex/scanner.go, token.go and span.go.
--   Lex.Token, Lex.TokenNames: TokenKind, its names and classes, keywords, Position, Span, Token.
--   Lex.Utf8: decoding of a rune. Which runes above ASCII are letters or digits (package unicode of
--     the Go library) is a parameter, the record Unicode.
--   Lex.Cursor: advanceByte and the functions that move the cursor. A state holds the bytes that are
--     left, with the offset, the line and the column.
--   Lex.Scanner: the Scanner, emit, err, checkBOM and skipTrivia.
--   Lex.Literals, Lex.Punct: identifiers, numbers, strings, characters and operators.
--   Lex.Run: scanOne, NewScanner and Run.
--   The others hold the theorems: Moves (a cursor goes forward over the bytes of the source), Scans
--   (what one call adds), Tiles, Trivia and Tokenized (a whole run), Longest (operators), Comments,
--   LineComments and Nested (comments).
--   Fuel: the loop of Run has one unit for each byte of the source, and each call of scanOne goes over
--   at least one byte; the loops over trivia, digits and the like have one for each byte that is left.
--
-- Check: compiler/check/match.go, and compiler/hir/pat.go.
--   Check.Patterns: the patterns. Check.Match: CheckMatchExhaustiveness and all that it calls. A report
--     is a constructor with what its text tells. A map from names to true is a list of names.
--   Admits, Exhaustive and Reachable hold the theorems. All functions are structural: there is no fuel.
--
-- Mir: compiler/mir: mir.go and the files w15_* and w16_*.
--   Mir.Types: opcodes, instructions, terminators, blocks, functions and the errors, one constructor
--     for each message.
--   Mir.Validate: Function.Validate with validateW15Inst and validateW16Inst. The set of defined
--     registers is a list.
--   Mir.Consumed: CheckNoMoveAfterMove.
--   Mir.Builder, Mir.Methods: the Builder of mir.go, w15_builder.go and w16_builder.go. The pointer to
--     the current block is an index into the blocks. A panic is none.
--   Mir.Step: any calls of the Builder. Mir.Lowered: calls that finish one block after the other.
--   Scoped, Stream, UseAfterDrop, Fresh, SingleAssignment, Ready, Calls and Lowering hold the theorems.
--   All loops are over lists: there is no fuel.
--
-- Pkg: compiler/pkg/version.go and resolver.go.
--   Pkg.Version: Version, Compare, Range, Contains, Intersect and SelectLatest. The components are
--     int, so signed. Pkg.Parse: ParseVersion, ParseRange and String; an error is none, strings.TrimSpace
--     is a parameter, strconv.Atoi and strings.Split are written out.
--   Pkg.Resolver: Resolve, from the constraints of the manifest to the selected versions. The closure
--     `walk` and the variables that it shares with Resolve are a function on a State. The registry
--     (the interface RegistryLookup) is a parameter. Go ranges over the constraints in no fixed order:
--     the order is an argument.
--   Order, LessThan, Intersect, Select, Parsed, Grown, Resolved, Restored, Unselected and Depth hold the theorems.
--   Fuel: it bounds the depth of `walk`. Each level selects a version for a name that had none, so one
--   more than the number of names is enough.
--
-- Resolve: compiler/resolve/cfg.go.
--   Resolve.Cfg: the expressions that a condition may have, and evalCfgDecorator with all that it
--     calls. Conditions and WellFormed hold the theorems. All functions are structural.
--
-- Typetable: compiler/typetable: kind.go, type.go and table.go.
--   Typetable.Kind, Typetable.Keys: Kind, Type (`Ty`) with its key, and validate. The function that
--     %q of fmt stands for is a parameter. Typetable.Table: Table, New, Intern, Get and Lookup; a panic
--     is none. An identifier is a number that is not negative.
--   Names, Identity and SameKey (which types have equal keys), Indexed, Interned and Checked (tables
--   that New and Intern make), and Primitives hold the theorems. There is no fuel.
--
-- Consteval: compiler/consteval: value.go, eval.go and the layouts of intrinsic.go, with the nodes of
-- compiler/hir that they read.
--   Consteval.Value: Value, its String, and the widths of types. Consteval.Words: the operations on
--     uint64 words; a word is a number, and each operation that can leave 64 bits wraps. `v & (1 << n - 1)`
--     is `v % 2 ^ n`. Consteval.Literals: the texts of literals, with strconv.ParseUint and ParseInt at
--     base 0 written out.
--   Consteval.Syntax: expressions, statements and patterns. A block is a list of statements that ends
--     with the trailing expression or with nothing. Calls of size_of and align_of are not among them.
--   Consteval.State: the cache, the reports (one constructor for each message), flows and scopes. A Go
--     panic is a flow of its own. Consteval.Binding: bindPattern. Consteval.Operators, Paths, Control: the
--     steps of the evalX methods after their operands. Consteval.Eval: the methods themselves.
--     Consteval.Evaluate: NewEvaluator and Evaluate over the items of a program. strconv.Atoi is a
--     parameter.
--   Consteval.Decls, Consteval.Layout: layoutSize and layoutAlign, over a table and the declarations of
--     a program.
--   Bounds, Readings, Exact and Casts (words), Sound with its children (what each step keeps), Evaluated,
--   and Padding, Aligned and Ranked (layouts) hold the theorems.
--   Fuel: the calls of layoutSize and layoutAlign have a depth; one more than the nesting of the type is
--   enough. Evaluation has no fuel: an expression is evaluated by recursion on it, a loop by the count of
--   its turns (maxLoopIterations), and a call or a constant by the levels that maxRecursionDepth leaves.
--   So every evaluation ends, with a value or a report.
--
-- Not modelled, although logic of the compiler: the syntax tree, parsing, name resolution but for
-- `@cfg`, type checking but for match expressions, the calls of size_of and align_of, restrictions and
-- substitution of constant evaluation, HIR, lowering, monomorphization, liveness, code generation, and
-- in compiler/pkg the manifest, the lockfile and their text form. Not modelled at all: the driver, the C compiler interface, the language server,
-- the REPL, the commands and tools, which are input and output, and the runtime in C.
pub mod Check
pub mod Consteval
pub mod Lex
pub mod Mir
pub mod Pkg
pub mod Prelude
pub mod Resolve
pub mod Typetable
