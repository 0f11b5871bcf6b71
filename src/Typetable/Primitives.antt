-- ===== src/Typetable/Primitives.antt =====
-- compiler/typetable/table.go: the primitive kinds of a new table, and the bounds of trait objects.
use mathlib.Core.List.{Permᴰ}
use mathlib.Core.List.Permᴰ.{nil, cons, swap, trans}
use fuse.Prelude.{ℕ, List, [], ◌∷◌, Bytes, ◌≡◌, refl, ap, ◌∙◌, arith}
use fuse.Typetable.Kind.{Kind, trait_object}
use fuse.Typetable.Keys.{zero_type}
use fuse.Typetable.Table.{Table, intern, insert_id, sort_ids, trait_object_of}

insert_id_twice :
    (i j : ℕ) (ks : List ℕ) → insert_id i (insert_id j ks) ≡ insert_id j (insert_id i ks)
unfolding insert_id
insert_id_twice i j [] = ground arith
insert_id_twice i j (k ∷ ks) = ground (arith, insert_id_twice i j ks)

sort_ids-Perm : {is js : List ℕ} → Permᴰ is js → sort_ids is ≡ sort_ids js
unfolding sort_ids
sort_ids-Perm nil = refl
sort_ids-Perm (cons {a} {b} e p) = ground (arith, e, sort_ids-Perm p)
sort_ids-Perm (swap {a} {b} {l} e f) = ground (arith, e, f, insert_id_twice a b (sort_ids l))
sort_ids-Perm (trans p q) = sort_ids-Perm p ∙ sort_ids-Perm q

-- Trait objects with the same bounds in another order are interned alike: to the same
-- identifier, in the same table.
pub trait_object-Perm :
    (quote : Bytes → Bytes) (is js : List ℕ) (t : Table)
    → Permᴰ is js
    → intern quote (trait_object_of is) t ≡ intern quote (trait_object_of js) t
trait_object-Perm quote is js t p =
    ap (λ ks. intern quote (record zero_type { kind = trait_object; children = ks }) t)
      (sort_ids-Perm p)
