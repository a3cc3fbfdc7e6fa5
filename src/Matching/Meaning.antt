-- ===== src/Matching/Meaning.antt =====
-- What a match means, apart from the code: the values of a type, the first clause that matches them,
-- and the run of a decision tree, as emit_decision_tree (starstream-to-wasm/src/lib.rs) lowers it
-- but for its cast of the literals to 64 or 32 bits.
use starstream.Prelude.{
  Forall2, ℕ, suc, Bool, true, false, ◌&&◌, ◌+◌, ◌<◌, ◌≡◌, Option, none, some, List, [], ◌∷◌, ◌++◌,
  length, ok, err, panic,
}
use starstream.Types.{Ty, int, bool, unit, tuple, record_type, enum, variants_of}
use starstream.Matching.Pattern.{
  Ctor, enum_variant, bool_true, bool_false, int_literal, struct, unit_ctor, ctor_eq, Pat, wildcard,
  ctor, Pats, field_types, Row, DecisionTree, leaf, fail, switch, Cases, no_case, case, Default,
  no_default, default,
}
use starstream.Matching.Compile.{focus}

-- A value is made by a constructor, or it is one that no pattern takes apart.
mutual
  pub data Val : Type 0 where
    con : Ctor → Vals → Val
    opaque : (id : ℕ) → Val

  pub data Vals : Type 0 where
    nil : Vals
    cons : Val → Vals → Vals

abbrev pub vals : Vals → List Val
vals nil = []
vals (cons v vs) = v ∷ vals vs

unfoldable mutual
  pub matches : Pat → Val → Bool
  matches (wildcard binding) v = true
  matches (ctor c ps) (con d vs) = ctor_eq c d && matches_all ps vs
  matches (ctor c ps) (opaque id) = false

  pub matches_all : Pats → Vals → Bool
  matches_all Pats.nil Vals.nil = true
  matches_all (Pats.cons p ps) (Vals.cons v vs) = matches p v && matches_all ps vs
  matches_all _ _ = false

unfoldable pub match_row : List Pat → List Val → Bool
match_row [] [] = true
match_row (p ∷ ps) (v ∷ vs) = matches p v && match_row ps vs
match_row _ _ = false

-- The action of the first row that matches.
unfoldable pub first : List Row → List Val → Option ℕ
first [] vs = none
first (r ∷ rs) vs = elim (match_row r.row vs) [ true ↦ some r.action | false ↦ first rs vs ]

-- The arm that a tree chooses; `none` is a trap.
unfoldable mutual
  pub run : DecisionTree → List Val → Option ℕ
  run (leaf action bindings) vs = some action
  run fail vs = none
  run (switch column cases other) vs = elim (focus vs column) [
    | ok (before, v, after) ↦ run_cases cases (run_default other (before ++ after)) before v after
    | err e ↦ none
    | panic ↦ none
  ]

  -- `otherwise` is what the default chooses.
  pub run_cases : Cases → (otherwise : Option ℕ) → List Val → Val → List Val → Option ℕ
  run_cases no_case otherwise before v after = otherwise
  run_cases (case c t cs) otherwise before (opaque id) after =
      run_cases cs otherwise before (opaque id) after
  run_cases (case c t cs) otherwise before (con d args) after = elim (ctor_eq c d) [
    | true ↦ run t (before ++ (vals args ++ after))
    | false ↦ run_cases cs otherwise before (con d args) after
  ]

  pub run_default : Default → List Val → Option ℕ
  run_default no_default vs = none
  run_default (default t) vs = run t vs

-- The constructors of a type.
abbrev pub IsCtorOf : Ctor → Ty → Type 0
IsCtorOf (enum_variant i) (enum name vs) = i < length (variants_of vs)
IsCtorOf bool_true bool = Unit
IsCtorOf bool_false bool = Unit
IsCtorOf (int_literal n) (int w) = Unit
IsCtorOf struct (record_type name fs) = Unit
IsCtorOf struct (tuple ts) = Unit
IsCtorOf unit_ctor unit = Unit
IsCtorOf _ _ = ⊥

-- The types whose values no pattern takes apart.
abbrev pub IsOpaque : Ty → Type 0
IsOpaque (int w) = ⊥
IsOpaque bool = ⊥
IsOpaque unit = ⊥
IsOpaque (tuple ts) = ⊥
IsOpaque (record_type name fs) = ⊥
IsOpaque (enum name vs) = ⊥
IsOpaque _ = Unit

unfoldable mutual
  pub HasTy : Val → Ty → Type 0
  HasTy (opaque id) t = IsOpaque t
  HasTy (con c vs) t = IsCtorOf c t × ((ts : List Ty) × (field_types c t ≡ ok ts) × AllHaveTy vs ts)

  pub AllHaveTy : Vals → List Ty → Type 0
  AllHaveTy Vals.nil [] = Unit
  AllHaveTy (Vals.cons v vs) (t ∷ ts) = HasTy v t × AllHaveTy vs ts
  AllHaveTy _ _ = ⊥

abbrev pub HaveTypes : List Val → List Ty → Type 0
HaveTypes = Forall2 HasTy

unfoldable mutual
  pub Fits : Pat → Ty → Type 0
  Fits (wildcard binding) t = Unit
  Fits (ctor c ps) t = IsCtorOf c t × ((ts : List Ty) × (field_types c t ≡ ok ts) × AllFit ps ts)

  pub AllFit : Pats → List Ty → Type 0
  AllFit Pats.nil [] = Unit
  AllFit (Pats.cons p ps) (t ∷ ts) = Fits p t × AllFit ps ts
  AllFit _ _ = ⊥

abbrev pub RowFits : List Pat → List Ty → Type 0
RowFits = Forall2 Fits

-- Every row has a pattern of each column's type.
abbrev pub WellTyped : List Row → List Ty → Type 0
WellTyped [] ts = Unit
WellTyped (r ∷ rs) ts = RowFits r.row ts × WellTyped rs ts

-- The number of constructors in the patterns.
unfoldable mutual
  pub size : Pat → ℕ
  size (wildcard binding) = 0
  size (ctor c ps) = suc (size_all ps)

  pub size_all : Pats → ℕ
  size_all Pats.nil = 0
  size_all (Pats.cons p ps) = size p + size_all ps

unfoldable pub size_row : List Pat → ℕ
size_row [] = 0
size_row (p ∷ ps) = size p + size_row ps

unfoldable pub matrix_size : List Row → ℕ
matrix_size [] = 0
matrix_size (r ∷ rs) = size_row r.row + matrix_size rs
