-- ===== src/Consteval/Sound/Paths.antt =====
-- compiler/consteval/eval.go: paths and calls keep values sound.

use fuse.Prelude.{
  ℕ, ◌^◌, ◌<◌, ◌==◌, Bool, true, false, List, [], ◌∷◌, Bytes, All, if◌then◌else◌, Option, none,
  some, ◌≡◌, refl, sym, arith,
}
use fuse.Prelude.Maps.{Map}
use fuse.Typetable.Table.{Table}
use fuse.Consteval.Value.{
  Value, Values, vk_invalid, vk_int, vk_bool, vk_unit, vk_tuple, vk_array, vk_struct, vk_char,
  empty, elem, integer_bits,
}
use fuse.Consteval.Words.{wrap}
use fuse.Consteval.Syntax.{Expr, Block, ConstDecl, FnDecl}
use fuse.Consteval.State.{
  Problem, State, Out, Scopes, flow_normal, flow_return, flow_break, flow_continue, flow_error,
  flow_panic, Program, find, lookup_variant, const_early_return, static_early_return,
}
use fuse.Consteval.Paths.{
  Deeper, remember, cached, finish, keep_valid, initialized, const_or, eval_const_decl,
  static_value, eval_static_decl, with_symbol, variant_or, variant_path, static_or, global_path,
  local_or, local_value, eval_path, bind_params, run_body, call_fn,
}
use fuse.Consteval.Bounds.{integer_bits-IsWidth}
use fuse.Consteval.Readings.{by_width}
use fuse.Consteval.Sound.{
  IsSound, AllSound, OptionSound, MapSound, ScopesSound, Ok, OutSound, failed,
  lookup_name-OptionSound, returned-OutSound,
}

-- No enum of the program has more than 256 variants.
abbrev pub IsSmall : Program → Type 0
IsSmall prog =
    (enum variant : Bytes) (i : ℕ) → lookup_variant prog.enums enum variant ≡ some i → i < 2 ^ 8

module _ (tab : Table) (d : ℕ) where
  abbrev pub DeeperSound : Deeper → Type 0
  DeeperSound deeper =
      ((e : Expr) (s : State) → Ok tab d s → OutSound tab d (deeper.initializer e s))
      × ((b : Block) (m : Map Value) (s : State)
          → MapSound tab m
          → Ok tab d s
          → OutSound tab d (deeper.body_of b m s))

  find-OptionSound :
      (k : ℕ) (cache : List (ℕ × Value))
      → All (λ e. IsSound tab e.1) cache
      → OptionSound tab (find k cache)
  unfolding find
  find-OptionSound k [] h = tt
  find-OptionSound k (e ∷ es) h = by_test (k == e.0) (find k es) h.0 (find-OptionSound k es h.1)
    where
      by_test :
          (b : Bool) (o : Option Value)
          → IsSound tab e.1
          → OptionSound tab o
          → OptionSound tab (if b then some e.1 else o)
      by_test true o h k = h
      by_test false o h k = k

  cached-OptionSound : (c : ConstDecl) (s : State) → Ok tab d s → OptionSound tab (cached c s)
  cached-OptionSound c s h = by_test (c.sym_id == 0)
    where
      by_test : (b : Bool) → OptionSound tab (if b then none else find c.sym_id s.cache)
      by_test true = tt
      by_test false = find-OptionSound c.sym_id s.cache h.0

  remember-Ok :
      (c : ConstDecl) (v : Value) (s : State)
      → IsSound tab v
      → Ok tab d s
      → Ok tab d (remember c v s)
  remember-Ok c v s w h = by_test (c.sym_id == 0)
    where
      by_test :
          (b : Bool) → Ok tab d (if b then s else record s { cache = (c.sym_id, v) ∷ s.cache })
      by_test true = h
      by_test false = ((w, h.0), h.1)

  finish-OutSound :
      (p : Problem) (keep : Value → State → State) (out : Out)
      → ((v : Value) (s : State) → IsSound tab v → Ok tab d s → Ok tab d (keep v s))
      → OutSound tab d out
      → OutSound tab d (finish p keep out)
  unfolding IsSound
  finish-OutSound p keep (v, flow_normal, s) f h =
      elim v as (λ k. IsSound tab k → OutSound tab d (keep_valid keep k s)) [
        | vk_invalid ↦ λ w. absurd (omega (arith, w))
        | vk_int ty n ↦ λ w. (w, f (vk_int ty n) s w h.1)
        | vk_bool ty b ↦ λ w. (w, f (vk_bool ty b) s w h.1)
        | vk_unit ty ↦ λ w. (w, f (vk_unit ty) s w h.1)
        | vk_tuple ty vs ↦ λ w. (w, f (vk_tuple ty vs) s w h.1)
        | vk_array ty vs ↦ λ w. (w, f (vk_array ty vs) s w h.1)
        | vk_struct ty order fs ↦ λ w. (w, f (vk_struct ty order fs) s w h.1)
        | vk_char ty n ↦ λ w. (w, f (vk_char ty n) s w h.1)
      ]
        h.0
  finish-OutSound p keep (v, flow_return, s) f h = failed tab d s h.1
  finish-OutSound p keep (v, flow_break, s) f h = failed tab d s h.1
  finish-OutSound p keep (v, flow_continue, s) f h = failed tab d s h.1
  finish-OutSound p keep (v, flow_error, s) f h = failed tab d s h.1
  finish-OutSound p keep (v, flow_panic, s) f h = h

  pub eval_const_decl-OutSound :
      (deeper : Deeper) (c : ConstDecl) (s : State)
      → DeeperSound deeper
      → Ok tab d s
      → OutSound tab d (eval_const_decl deeper c s)
  unfolding eval_const_decl
  eval_const_decl-OutSound deeper c s g h = from_cache (cached c s) (cached-OptionSound c s h)
    where
      from_value : (o : Option Expr) → OutSound tab d (initialized deeper c o s)
      from_value none = failed tab d s h
      from_value (some e) =
          finish-OutSound const_early_return (λ v t. remember c v t) (deeper.initializer e s)
            (λ v t w i. remember-Ok c v t w i) (g.0 e s h)

      from_cache : (o : Option Value) → OptionSound tab o → OutSound tab d (const_or deeper c o s)
      from_cache none q = from_value c.value
      from_cache (some v) q = (q, h)

  pub eval_static_decl-OutSound :
      (deeper : Deeper) (c : ConstDecl) (s : State)
      → DeeperSound deeper
      → Ok tab d s
      → OutSound tab d (eval_static_decl deeper c s)
  unfolding eval_static_decl
  eval_static_decl-OutSound deeper c s g h = from_value c.value
    where
      from_value : (o : Option Expr) → OutSound tab d (static_value deeper o s)
      from_value none = (tt, h)
      from_value (some e) =
          finish-OutSound static_early_return (λ v t. t) (deeper.initializer e s) (λ v t w i. i)
            (g.0 e s h)

  variant_lt : (ty i : ℕ) → i < 2 ^ 8 → wrap i < 2 ^ integer_bits tab ty
  variant_lt ty i h =
      by_width (λ x. wrap i < 2 ^ x) (integer_bits tab ty) (integer_bits-IsWidth tab ty)
        (omega (arith, h)) (omega (arith, h)) (omega (arith, h)) (omega (arith, h))

  module _ (prog : Program) (deeper : Deeper) where
    variant_path-OutSound :
        (ty : ℕ) (segments : List Bytes) (s : State)
        → IsSmall prog
        → Ok tab d s
        → OutSound tab d (variant_path prog deeper ty segments s)
    unfolding IsSound
    variant_path-OutSound ty [] s m h = failed tab d s h
    variant_path-OutSound ty (a ∷ []) s m h = failed tab d s h
    variant_path-OutSound ty (a ∷ b ∷ []) s m h = named (lookup_variant prog.enums a b) refl
      where
        named :
            (o : Option ℕ)
            → lookup_variant prog.enums a b ≡ o
            → OutSound tab d (variant_or prog deeper ty (a ∷ b ∷ []) o s)
        named none e = failed tab d s h
        named (some i) e = (variant_lt ty i (m a b i e), h)
    variant_path-OutSound ty (a ∷ b ∷ c ∷ more) s m h = failed tab d s h

    pub eval_path-OutSound :
        (segments : List Bytes) (sym ty : ℕ) (env : Scopes) (s : State)
        → IsSmall prog
        → DeeperSound deeper
        → ScopesSound tab env
        → Ok tab d s
        → OutSound tab d (eval_path prog deeper segments sym ty env s)
    unfolding eval_path
    eval_path-OutSound segments sym ty env s m g e h =
        from_local (local_value prog deeper segments env) (local_sound segments)
      where
        local_sound : (xs : List Bytes) → OptionSound tab (local_value prog deeper xs env)
        local_sound [] = tt
        local_sound (x ∷ []) = lookup_name-OptionSound tab x env e
        local_sound (x ∷ y ∷ ys) = tt

        from_static :
            (o : Option ConstDecl) → OutSound tab d (static_or prog deeper ty segments o s)
        from_static none = variant_path-OutSound ty segments s m h
        from_static (some c) = eval_static_decl-OutSound deeper c s g h

        from_global :
            (o : Option ConstDecl) → OutSound tab d (global_path prog deeper ty segments sym o s)
        from_global none = from_static (with_symbol sym prog.static_decls)
        from_global (some c) = eval_const_decl-OutSound deeper c s g h

        from_local :
            (o : Option Value)
            → OptionSound tab o
            → OutSound tab d (local_or prog deeper ty segments sym o s)
        from_local none q = from_global (with_symbol sym prog.const_decls)
        from_local (some v) q = (q, h)

  bind_params-MapSound :
      (ps : List Bytes) (vs : Values) (m : Map Value)
      → AllSound tab vs
      → MapSound tab m
      → MapSound tab (bind_params ps vs m)
  unfolding IsSound
  bind_params-MapSound [] vs m h k = k
  bind_params-MapSound (p ∷ ps) empty m h k = k
  bind_params-MapSound (p ∷ ps) (elem v vs) m h k = bind_params-MapSound ps vs _ h.1 (h.0, k)

  pub call_fn-OutSound :
      (deeper : Deeper) (o : Option FnDecl) (vs : Values) (s : State)
      → DeeperSound deeper
      → AllSound tab vs
      → Ok tab d s
      → OutSound tab d (call_fn deeper o vs s)
  call_fn-OutSound deeper none vs s g w h = failed tab d s h
  call_fn-OutSound deeper (some f) vs s g w h = from_body f.body
    where
      from_body : (o : Option Block) → OutSound tab d (run_body deeper f o vs s)
      from_body none = failed tab d s h
      from_body (some b) =
          returned-OutSound tab d _
            (g.1 b (bind_params f.params vs []) s (bind_params-MapSound f.params vs [] w tt) h)
