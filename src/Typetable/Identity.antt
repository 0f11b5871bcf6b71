-- ===== src/Typetable/Identity.antt =====
-- compiler/typetable/type.go: what a key says of a type.

use fuse.Prelude.{
  ℕ, ◌==◌, Bool, true, false, List, [], ◌∷◌, ◌++◌, Bytes, codes, length, ◌≡◌, refl, sym, arith,
  append_cancel, inl, inr,
}
use fuse.Prelude.Decimal.{decimal, decimal_split, decimal_begins, IsEnded}
use fuse.Typetable.Kind.{
  Kind, tuple, array, slice, ptr, ref, mutref, fn, trait_object, struct, enum, union, trait,
  type_alias, generic_param, channel, thread_handle,
}
use fuse.Typetable.Keys.{
  Ty, zero_type, child_at, write_more, write_list, write_bool, write_args, write_body, is_valid,
}

abbrev pub nominal : Kind → Ty → Ty
nominal k t = record zero_type {
  kind = k;
  symbol = t.symbol;
  module_path = t.module_path;
  name = t.name;
  type_args = t.type_args;
}

abbrev compound : Kind → Ty → Ty
compound k t = record zero_type { kind = k; children = t.children }

-- A type of kind `k` with the fields that its kind does not use set to zero, by the
-- comment of `Type`.
abbrev pub identity : Kind → Ty → Ty
identity array t = record zero_type {
  kind = array;
  children = t.children;
  array_length = t.array_length;
}
identity fn t = record zero_type {
  kind = fn;
  children = t.children;
  return = t.return;
  is_variadic = t.is_variadic;
}
identity tuple t = compound tuple t
identity trait_object t = compound trait_object t
identity slice t = compound slice t
identity ptr t = compound ptr t
identity ref t = compound ref t
identity mutref t = compound mutref t
identity channel t = compound channel t
identity thread_handle t = compound thread_handle t
identity struct t = nominal struct t
identity enum t = nominal enum t
identity union t = nominal union t
identity trait t = nominal trait t
identity type_alias t = nominal type_alias t
identity generic_param t = record (nominal generic_param t) { type_args = [] }
identity k t = record zero_type { kind = k }

more-IsEnded : (xs : List ℕ) (r : Bytes) → IsEnded (write_more xs (93 ∷ r))
unfolding write_more
more-IsEnded [] r = inr (omega arith)
more-IsEnded (x ∷ xs) r = inl (omega arith)

write_more-split :
    (xs ys : List ℕ) (r s : Bytes)
    → write_more xs (93 ∷ r) ≡ write_more ys (93 ∷ s)
    → (xs ≡ ys) × (r ≡ s)
unfolding write_more
write_more-split [] [] r s e = ground arith
write_more-split [] (y ∷ ys) r s e = ground arith
write_more-split (x ∷ xs) [] r s e = ground arith
write_more-split (x ∷ xs) (y ∷ ys) r s e =
    let p = append_cancel (44 ∷ []) _ _ e in
    let h = decimal_split x y _ _ (more-IsEnded xs r) (more-IsEnded ys s) p in
    let q = write_more-split xs ys r s h.1 in ground arith

write_list-split :
    (xs ys : List ℕ) (r s : Bytes)
    → write_list xs (93 ∷ r) ≡ write_list ys (93 ∷ s)
    → (xs ≡ ys) × (r ≡ s)
write_list-split [] [] r s e = ground arith
write_list-split [] (y ∷ ys) r s e = absurd (decimal_begins y 93 _ r (inr (omega arith)) (sym e))
write_list-split (x ∷ xs) [] r s e = absurd (decimal_begins x 93 _ s (inr (omega arith)) e)
write_list-split (x ∷ xs) (y ∷ ys) r s e =
    let h = decimal_split x y _ _ (more-IsEnded xs r) (more-IsEnded ys s) e in
    let q = write_more-split xs ys r s h.1 in ground arith

one_child :
    (xs ys : List ℕ)
    → (length xs == 1) ≡ true
    → (length ys == 1) ≡ true
    → child_at xs 0 ≡ child_at ys 0
    → xs ≡ ys
one_child (x ∷ []) (y ∷ []) h k e = ground arith
one_child [] ys h k e = absurd (ground arith)
one_child (x ∷ []) [] h k e = absurd (ground arith)
one_child (x ∷ []) (y ∷ z ∷ ys) h k e = absurd (ground arith)
one_child (x ∷ z ∷ xs) ys h k e = absurd (ground arith)

-- The closing brace of a key.
abbrev pub closing : Bytes
closing = codes "}"

pub elem_split :
    (xs ys : List ℕ)
    → (length xs == 1) ≡ true
    → (length ys == 1) ≡ true
    → codes "elem=" ++ (decimal (child_at xs 0) ++ closing)
      ≡ codes "elem=" ++ (decimal (child_at ys 0) ++ closing)
    → xs ≡ ys
elem_split xs ys h k e =
    let p = append_cancel (codes "elem=") _ _ e in
    let q = decimal_split _ _ closing closing (inr (omega arith)) (inr (omega arith)) p in
    one_child xs ys h k q.0

pub children_split :
    (xs ys : List ℕ)
    → codes "children=[" ++ write_list xs (93 ∷ closing)
      ≡ codes "children=[" ++ write_list ys (93 ∷ closing)
    → xs ≡ ys
children_split xs ys e =
    (write_list-split xs ys closing closing (append_cancel (codes "children=[") _ _ e)).0

pub array_split :
    (t u : Ty)
    → is_valid array t ≡ true
    → is_valid array u ≡ true
    → write_body (λ s. s) array t closing ≡ write_body (λ s. s) array u closing
    → (t.array_length ≡ u.array_length) × (t.children ≡ u.children)
array_split t u h k e =
    let p = append_cancel (codes "len=") _ _ e in
    let q =
      decimal_split t.array_length u.array_length _ _ (inr (omega arith)) (inr (omega arith)) p in
    let r = append_cancel (codes ";elem=") _ _ q.1 in
    let s = decimal_split _ _ closing closing (inr (omega arith)) (inr (omega arith)) r in
    (q.0, one_child t.children u.children h k s.0)

bool_split : (a b : Bool) → write_bool a ++ closing ≡ write_bool b ++ closing → a ≡ b
bool_split true true e = refl
bool_split false false e = refl
bool_split true false e = absurd (ground arith)
bool_split false true e = absurd (ground arith)

pub fn_split :
    (t u : Ty)
    → write_body (λ s. s) fn t closing ≡ write_body (λ s. s) fn u closing
    → (t.children ≡ u.children) × (t.return ≡ u.return) × (t.is_variadic ≡ u.is_variadic)
fn_split t u e =
    let p = append_cancel (codes "params=[") _ _ e in
    let q = write_list-split t.children u.children _ _ p in
    let r = append_cancel (codes ";ret=") _ _ q.1 in
    let s = decimal_split t.return u.return _ _ (inr (omega arith)) (inr (omega arith)) r in
    let v = append_cancel (codes ";var=") _ _ s.1 in
    (q.0, s.0, bool_split t.is_variadic u.is_variadic v)

pub args_split : (xs ys : List ℕ) → write_args xs closing ≡ write_args ys closing → xs ≡ ys
args_split [] [] e = refl
args_split [] (y ∷ ys) e = absurd (ground arith)
args_split (x ∷ xs) [] e = absurd (ground arith)
args_split (x ∷ xs) (y ∷ ys) e =
    (write_list-split (x ∷ xs) (y ∷ ys) closing closing (append_cancel (codes ";args=[") _ _ e)).0
