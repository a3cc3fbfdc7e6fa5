-- ===== src/Exhaustiveness/Uncovered.antt =====
-- The rows that `collect_missing_patterns` puts together from the rows of a smaller matrix.
use starstream.Prelude.{
  Bool, true, false, ◌≡◌, and-true, List, [], ◌∷◌, ◌++◌, length, All, filter_map,
}
use starstream.Types.{Ty}
use starstream.Matching.Meaning.{Val, con, opaque, vals}
use starstream.Matching.Branches.{ctor_eq→eq as tag_eq→eq}
use starstream.Exhaustiveness.Rows.{covers_row-append, covers_row-pats}
use starstream.Exhaustiveness.Pattern.{boolean, Ctor, wildcard, ctor, literal, SimplePats, pats}
use starstream.Exhaustiveness.Useful.{PatternRow, specialize_row, default_row, literal_row, is_bool}
use starstream.Exhaustiveness.Meaning.{tag, literal_tag, covers, covers_all, covers_row, covers_any}
use starstream.Exhaustiveness.Listed.{RowListed, RowsListed, IsNamed}
use starstream.Exhaustiveness.Heads.{NoCtor, NoLiteral, Avoids, AvoidsLiteral}
use starstream.Exhaustiveness.Passing.{
  Passes, filter_map-uncovered, default_row-Passes, default_row-ctor-Passes,
  default_row-boolean-Passes, literal_row-Passes, specialize_row-Passes, covers_all-length,
}

-- No row covers values that this row covers.
abbrev pub Uncovered : List PatternRow → PatternRow → Type 0
Uncovered rows row = (vs : List Val) → covers_row row vs ≡ true → covers_any rows vs ≡ false

module _ {ℓ} {A : Type ℓ} (P Q R : A → Type 0) where
  All-both : (xs : List A) → All P xs → All Q xs → ((x : A) → P x → Q x → R x) → All R xs
  All-both [] h k f = tt
  All-both (x ∷ xs) h k f = (f x h.0 k.0, All-both xs h.1 k.1 f)

module _ (rows : List PatternRow) where
  pub wildcard-Uncovered :
      (tail : PatternRow)
      → All NoCtor rows
      → All NoLiteral rows
      → Uncovered (filter_map default_row rows) tail
      → Uncovered rows (wildcard ∷ tail)
  unfolding covers_row covers
  wildcard-Uncovered tail c l u [] h = cc
  wildcard-Uncovered tail c l u (v ∷ vs) h =
      filter_map-uncovered default_row (v ∷ vs) vs rows
        (All-both NoCtor NoLiteral (Passes default_row (v ∷ vs) vs) rows c l
          (default_row-Passes v vs))
        (u vs h)

  module _ (ty : Ty) (tys : List Ty) (listed : RowsListed rows (ty ∷ tys)) where
    pub boolean_default-Uncovered :
        (b : Bool) (tail : PatternRow)
        → is_bool ty ≡ true
        → All (AvoidsLiteral (boolean b)) rows
        → Uncovered (filter_map default_row rows) tail
        → Uncovered rows (literal (boolean b) ∷ tail)
    unfolding covers_row covers
    boolean_default-Uncovered b tail o a u [] h = cc
    boolean_default-Uncovered b tail o a u (opaque id ∷ vs) h = cc
    boolean_default-Uncovered b tail o a u (con t args ∷ vs) h =
        let (head, rest) = and-true _ (covers_row tail vs) h in
        let same = tag_eq→eq (literal_tag (boolean b)) t (and-true _ _ head).0 in
        rw (← same) (
          filter_map-uncovered default_row (con (literal_tag (boolean b)) args ∷ vs) vs rows
            (All-both (RowListed (ty ∷ tys)) (AvoidsLiteral (boolean b))
              (Passes default_row (con (literal_tag (boolean b)) args ∷ vs) vs) rows listed a
              (default_row-boolean-Passes ty tys args vs b o))
            (u vs rest))

    pub boolean_literal-Uncovered :
        (b : Bool) (tail : PatternRow)
        → is_bool ty ≡ true
        → Uncovered (filter_map (literal_row (boolean b)) rows) tail
        → Uncovered rows (literal (boolean b) ∷ tail)
    unfolding covers_row covers
    boolean_literal-Uncovered b tail o u [] h = cc
    boolean_literal-Uncovered b tail o u (opaque id ∷ vs) h = cc
    boolean_literal-Uncovered b tail o u (con t args ∷ vs) h =
        let (head, rest) = and-true _ (covers_row tail vs) h in
        let same = tag_eq→eq (literal_tag (boolean b)) t (and-true _ _ head).0 in
        rw (← same) (
          filter_map-uncovered (literal_row (boolean b)) (con (literal_tag (boolean b)) args ∷ vs)
            vs rows
            (All-both (RowListed (ty ∷ tys)) (RowListed (ty ∷ tys))
              (Passes (literal_row (boolean b)) (con (literal_tag (boolean b)) args ∷ vs) vs) rows
              listed listed (λ row l _. literal_row-Passes ty tys args vs b o row l))
            (u vs rest))

    pub ctor_default-Uncovered :
        (c : Ctor) (qs : SimplePats) (tail : PatternRow)
        → IsNamed c ty
        → All (Avoids c) rows
        → Uncovered (filter_map default_row rows) tail
        → Uncovered rows (ctor c qs ∷ tail)
    unfolding covers_row covers
    ctor_default-Uncovered c qs tail o a u [] h = cc
    ctor_default-Uncovered c qs tail o a u (opaque id ∷ vs) h = cc
    ctor_default-Uncovered c qs tail o a u (con t args ∷ vs) h =
        let (head, rest) = and-true _ (covers_row tail vs) h in
        let same = tag_eq→eq (tag c) t (and-true _ (covers_all qs args) head).0 in
        rw (← same) (
          filter_map-uncovered default_row (con (tag c) args ∷ vs) vs rows
            (All-both (RowListed (ty ∷ tys)) (Avoids c)
              (Passes default_row (con (tag c) args ∷ vs) vs) rows listed a
              (default_row-ctor-Passes ty tys args vs c o))
            (u vs rest))

    pub ctor-Uncovered :
        (c : Ctor) (qs : SimplePats) (tail : PatternRow)
        → IsNamed c ty
        → Uncovered (filter_map (specialize_row c (length (pats qs))) rows) (pats qs ++ tail)
        → Uncovered rows (ctor c qs ∷ tail)
    unfolding covers_row covers
    ctor-Uncovered c qs tail o u [] h = cc
    ctor-Uncovered c qs tail o u (opaque id ∷ vs) h = cc
    ctor-Uncovered c qs tail o u (con t args ∷ vs) h =
        let (head, rest) = and-true _ (covers_row tail vs) h in
        let (at, all) = and-true _ (covers_all qs args) head in
        let same = tag_eq→eq (tag c) t at in
        let l = covers_all-length qs args all in
        let u' = (rw l at u) in
        rw (← same) (
          filter_map-uncovered (specialize_row c (length (vals args))) (con (tag c) args ∷ vs)
            (vals args ++ vs) rows
            (All-both (RowListed (ty ∷ tys)) (RowListed (ty ∷ tys))
              (Passes (specialize_row c (length (vals args))) (con (tag c) args ∷ vs)
                (vals args ++ vs))
              rows listed listed (λ row k _. specialize_row-Passes ty tys args vs c o row k))
            (u' (vals args ++ vs) (
              rw (covers_row-append (pats qs) tail (vals args) vs l, covers_row-pats qs args, all)
                rest)))
