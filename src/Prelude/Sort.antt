-- ===== src/Prelude/Sort.antt =====
-- `sort.Strings` of the Go library.
use mathlib.Core.Bool.{Bool, true, false}
use mathlib.Core.List.{List, [], ◌∷◌}
use fuse.Prelude.Tests.{ltb, ◌==◌, if◌then◌else◌}
use fuse.Prelude.Lists.{Bytes}

-- The order of strings is that of their bytes.
unfoldable pub at_most : Bytes → Bytes → Bool
at_most [] ys = true
at_most (x ∷ xs) [] = false
at_most (x ∷ xs) (y ∷ ys) = if ltb x y then true else if x == y then at_most xs ys else false

unfoldable pub insert_string : Bytes → List Bytes → List Bytes
insert_string x [] = x ∷ []
insert_string x (y ∷ ys) = if at_most x y then x ∷ (y ∷ ys) else y ∷ insert_string x ys

unfoldable pub sort_strings : List Bytes → List Bytes
unfolding insert_string at_most
sort_strings [] = []
sort_strings (x ∷ xs) = insert_string x (sort_strings xs)
