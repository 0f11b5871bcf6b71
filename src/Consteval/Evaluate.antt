-- ===== src/Consteval/Evaluate.antt =====
-- compiler/consteval/eval.go: the evaluation of a whole program.
use fuse.Prelude.{
  ℕ, suc, ◌==◌, Bool, true, false, List, [], ◌∷◌, Bytes, if◌then◌else◌, Option, none, some,
}
use fuse.Typetable.Table.{Table}
use fuse.Consteval.Value.{Value}
use fuse.Consteval.Syntax.{ConstDecl, FnDecl, EnumDecl}
use fuse.Consteval.State.{State, Program, Out, flow_normal, flow_panic}
use fuse.Consteval.Paths.{Deeper, eval_const_decl, eval_static_decl}
use fuse.Consteval.Eval.{top_level}

mutual
  -- The items that `indexItem` and `Evaluate` read, in the order of the program's modules. A
  -- function and an enum have their symbol.
  pub data Item : Type 0 where
    const_item : ConstDecl → Item
    -- Whether it is extern.
    static_item : Bool → ConstDecl → Item
    fn_item : ℕ → FnDecl → Item
    enum_item : ℕ → EnumDecl → Item
    impl_item : Items → Item
    other_item : Item

  pub data Items : Type 0 where
    no_items : Items
    item : Item → Items → Items

abbrev pub put_symbol {ℓ} : {A : Type ℓ} → ℕ → A → List (ℕ × A) → List (ℕ × A)
put_symbol sym a es = if sym == 0 then es else (sym, a) ∷ es

unfoldable mutual
  -- `indexItem`: a later item hides an earlier one with its symbol.
  pub index_item : Item → Program → Program
  index_item (const_item c) p = record p { const_decls = put_symbol c.sym_id c p.const_decls }
  index_item (static_item extern c) p = record p {
    static_decls = put_symbol c.sym_id c p.static_decls;
  }
  index_item (fn_item sym f) p = record p { fn_by_sym = put_symbol sym f p.fn_by_sym }
  index_item (enum_item sym e) p = p
  index_item (impl_item items) p = index_items items p
  index_item other_item p = p

  -- `indexItems`.
  pub index_items : Items → Program → Program
  index_items no_items p = p
  index_items (item i is) p = index_items is (index_item i p)

-- The enums that `lookupEnumVariantIndex` goes through.
unfoldable pub enums_of : Items → List EnumDecl
enums_of no_items = []
enums_of (item (enum_item sym e) is) = e ∷ enums_of is
enums_of (item (const_item c) is) = enums_of is
enums_of (item (static_item extern c) is) = enums_of is
enums_of (item (fn_item sym f) is) = enums_of is
enums_of (item (impl_item items) is) = enums_of is
enums_of (item other_item is) = enums_of is

-- `NewEvaluator`.
unfoldable pub new_evaluator : Items → Program
new_evaluator is =
    index_items is
      (record { const_decls = []; static_decls = []; fn_by_sym = []; enums = enums_of is })

-- `Result`: the maps of Evaluate, an earlier entry hides a later one.
pub record Result : Type 0 where
  pub const_values : List (ℕ × Value)
  pub static_values : List (ℕ × Value)
  pub discriminant_values : List ((ℕ × ℕ) × ℕ)

-- `evalEnumDiscriminants`, from the variant number `i`.
unfoldable pub put_discriminants : ℕ → ℕ → List Bytes → List ((ℕ × ℕ) × ℕ) → List ((ℕ × ℕ) × ℕ)
put_discriminants sym i [] ds = ds
put_discriminants sym i (v ∷ vs) ds = put_discriminants sym (suc i) vs (((sym, i), i) ∷ ds)

-- A Go panic ends the evaluation without a result.
abbrev pub Evaluation : Type 0
Evaluation = Option (Result × State)

abbrev pub keep_const : ℕ → Out → Result → (Result → State → Evaluation) → Evaluation
keep_const sym (v, flow_normal, s) r k = k (record r { const_values = (sym, v) ∷ r.const_values }) s
keep_const sym (v, flow_panic, s) r k = none
keep_const sym (v, _, s) r k = k r s

abbrev pub keep_static : ℕ → Out → Result → (Result → State → Evaluation) → Evaluation
keep_static sym (v, flow_normal, s) r k =
    k (record r { static_values = (sym, v) ∷ r.static_values }) s
keep_static sym (v, flow_panic, s) r k = none
keep_static sym (v, _, s) r k = k r s

module _ (deeper : Deeper) where
  -- The body of the loop of `Evaluate`.
  unfoldable pub evaluate_item : Item → Result → State → (Result → State → Evaluation) → Evaluation
  evaluate_item (const_item c) r s k = elim (c.sym_id == 0) [
    | true ↦ k r s
    | false ↦ keep_const c.sym_id (eval_const_decl deeper c s) r k
  ]
  evaluate_item (static_item extern c) r s k = elim extern [
    | true ↦ k r s
    | false ↦ elim c.value [
      | none ↦ k r s
      | some e ↦ elim (c.sym_id == 0) [
        | true ↦ k r s
        | false ↦ keep_static c.sym_id (eval_static_decl deeper c s) r k
      ]
    ]
  ]
  evaluate_item (enum_item sym e) r s k = elim (sym == 0) [
    | true ↦ k r s
    | false ↦
        k
          (record r {
            discriminant_values = put_discriminants sym 0 e.variants r.discriminant_values;
          })
          s
  ]
  evaluate_item (fn_item sym f) r s k = k r s
  evaluate_item (impl_item items) r s k = k r s
  evaluate_item other_item r s k = k r s

  unfoldable pub evaluate_items : Items → Result → State → Evaluation
  evaluate_items no_items r s = some (r, s)
  evaluate_items (item i is) r s = evaluate_item i r s (λ q t. evaluate_items is q t)

-- `Evaluate`.
unfoldable pub evaluate : Table → (Bytes → Option ℕ) → Items → Evaluation
evaluate tab atoi is =
    evaluate_items (top_level (new_evaluator is) tab atoi) is
      (record { const_values = []; static_values = []; discriminant_values = [] })
      (record { cache = []; diags = [] })
