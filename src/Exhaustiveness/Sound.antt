-- ===== src/Exhaustiveness/Sound.antt =====
-- A pattern that is not useful covers no value that the rows before it leave.
use starstream.Prelude.{
  ℕ, zero, suc, Bool, true, false, ◌&&◌, ◌==◌, ◌≡◌, refl, arith, some, List, [], ◌∷◌, ◌++◌, length,
  All, ok, replicate, and-true, Bool-cases, inl, inr, ap, sym, ◌∙◌, Option-cases,
}
use starstream.Types.{Ty}
use starstream.Matching.Pattern.{
  ctor_eq as tag_eq, field_types, bool_true, bool_false, int_literal, struct, unit_ctor,
  enum_variant as enum_tag, Compiled,
}
use starstream.Matching.Meaning.{Val, con, opaque, Vals, vals, HaveTypes, HasTy, IsOpaque}
use starstream.Matching.Branches.{ctor_eq→eq as tag_eq→eq}
use starstream.Exhaustiveness.Pattern.{
  boolean, SimplePat, wildcard, ctor, literal, SimplePats, pats, CtorInfo, CtorSet, for_type,
  get_info,
}
use starstream.Exhaustiveness.Useful.{
  PatternRow, Matrix, specialize_literal, any_useful, useful_constructors, useful_wildcard,
  useful_head, useful_column, is_useful, is_bool, has_literals, both_booleans, collect_literals,
  collect_ctors,
}
use starstream.Exhaustiveness.Meaning.{
  tag, literal_tag, covers, covers_all, covers_row, covers_any, RowsFit,
}
use starstream.Exhaustiveness.Constructors.{
  get_info-All, InfoFits, for_type-InfoFits, for_type-Picked,
}
use starstream.Exhaustiveness.Rows.{covers_row-append, covers_row-pats}
use starstream.Exhaustiveness.Booleans.{not-IsOpaque, not_bool, no_fields, collect_ctors-bool}
use starstream.Exhaustiveness.Parts.{
  matrix, Sound, either-false, NotUseful, any_useful-false, default_sound, literal_sound,
  constructor_sound, wildcards-cover,
}

All-both {ℓ} :
    {A : Type ℓ} (P Q : A → Type 0) (xs : List A) → All P xs → All Q xs → All (λ x. P x × Q x) xs
All-both P Q [] p q = tt
All-both P Q (x ∷ xs) p q = ((p.0, q.0), All-both P Q xs p.1 q.1)

covers_all-length :
    (ps : SimplePats) (vs : Vals) → covers_all ps vs ≡ true → length (pats ps) ≡ length (vals vs)
unfolding covers
covers_all-length SimplePats.nil Vals.nil h = refl
covers_all-length SimplePats.nil (Vals.cons v vs) h = cc
covers_all-length (SimplePats.cons p ps) Vals.nil h = cc
covers_all-length (SimplePats.cons p ps) (Vals.cons v vs) h =
    ap suc (covers_all-length ps vs (and-true (covers p v) (covers_all ps vs) h).1)

no-IsOpaque : (ty : Ty) (c : CtorInfo) (cs : CtorSet) → for_type ty ≡ some (c ∷ cs) → ¬ IsOpaque ty
unfolding for_type
no-IsOpaque ty c cs e o = ground arith

module _ (rec : Matrix → List SimplePat → Compiled Bool) (sound : Sound rec)
    (rows : List PatternRow) (ty : Ty) (tys : List Ty) (fit : RowsFit rows (ty ∷ tys)) where
  -- A complete signature: every constructor of the type is tried.
  complete_sound :
      (c : CtorInfo) (cs : CtorSet) (ps : List SimplePat) (v : Val) (vs : List Val)
      → for_type ty ≡ some (c ∷ cs)
      → is_bool ty ≡ false
      → HasTy v ty
      → HaveTypes vs tys
      → any_useful rec (matrix rows (ty ∷ tys)) ps (c ∷ cs) ≡ ok false
      → covers_row ps vs ≡ true
      → covers_any rows (v ∷ vs) ≡ true
  unfolding HasTy
  complete_sound c cs ps (opaque id) vs e b hv hvs h k = absurd (no-IsOpaque ty c cs e hv)
  complete_sound c cs ps (con t args) vs e b hv hvs h k =
      let (info, (fits, none_left), same) =
        for_type-Picked (λ i. InfoFits ty i × NotUseful rec sound rows ty tys fit ps i) ty c cs t e
          b hv.0
          (All-both (InfoFits ty) (NotUseful rec sound rows ty tys fit ps) (c ∷ cs)
            (for_type-InfoFits ty (c ∷ cs) b e)
            (any_useful-false rec sound rows ty tys fit ps (c ∷ cs) h)) in
      constructor_sound rec sound rows ty tys fit info.ctor info
        (replicate info.arity wildcard ++ ps) t args vs fits.0 fits.1 same hv hvs none_left
        (wildcards-cover rec sound rows ty tys fit info t args ps vs fits same hv k)

  -- Both Booleans are covered, each by its rows.
  both_sound :
      (ps : List SimplePat) (v : Val) (vs : List Val)
      → is_bool ty ≡ true
      → HasTy v ty
      → HaveTypes vs tys
      → rec (specialize_literal (matrix rows (ty ∷ tys)) (boolean true)) ps ≡ ok false
      → rec (specialize_literal (matrix rows (ty ∷ tys)) (boolean false)) ps ≡ ok false
      → covers_row ps vs ≡ true
      → covers_any rows (v ∷ vs) ≡ true
  unfolding HasTy
  both_sound ps (con bool_true args) vs b hv hvs h h' k =
      literal_sound rec sound rows ty tys fit (boolean true) ps bool_true args vs refl
        (no_fields ty bool_true args b hv) hvs h k
  both_sound ps (con bool_false args) vs b hv hvs h h' k =
      literal_sound rec sound rows ty tys fit (boolean false) ps bool_false args vs refl
        (no_fields ty bool_false args b hv) hvs h' k
  both_sound ps (con (enum_tag i) args) vs b hv hvs h h' k = absurd (ground arith)
  both_sound ps (con (int_literal n) args) vs b hv hvs h h' k = absurd (ground arith)
  both_sound ps (con struct args) vs b hv hvs h h' k = absurd (ground arith)
  both_sound ps (con unit_ctor args) vs b hv hvs h h' k = absurd (ground arith)
  both_sound ps (opaque id) vs b hv hvs h h' k = absurd (not-IsOpaque ty b hv)

  constructors_sound :
      (ctors : CtorSet) (ps : List SimplePat) (v : Val) (vs : List Val)
      → for_type ty ≡ some ctors
      → HasTy v ty
      → HaveTypes vs tys
      → useful_constructors rec (matrix rows (ty ∷ tys)) ps ctors ≡ ok false
      → covers_row ps vs ≡ true
      → covers_any rows (v ∷ vs) ≡ true
  unfolding useful_constructors
  constructors_sound [] ps v vs e hv hvs h k =
      default_sound rec sound rows ty tys fit ps v vs hvs h k
  constructors_sound (c ∷ cs) ps v vs e hv hvs h k =
      elim (Bool-cases (length (collect_ctors rows []) == length (c ∷ cs))) [
        | inl q ↦ elim (Bool-cases (is_bool ty)) [
          | inl b ↦ let none_seen = collect_ctors-bool rows ty tys b fit [] in absurd (ground arith)
          | inr b ↦ complete_sound c cs ps v vs e b hv hvs (rw (q, useful_constructors) at h) k
        ]
        | inr q ↦
            default_sound rec sound rows ty tys fit ps v vs hvs (rw (q, useful_constructors) at h) k
      ]

  wildcard_sound :
      (ctors : CtorSet) (ps : List SimplePat) (v : Val) (vs : List Val)
      → for_type ty ≡ some ctors
      → HasTy v ty
      → HaveTypes vs tys
      → useful_wildcard rec (matrix rows (ty ∷ tys)) ty ps ctors ≡ ok false
      → covers_row ps vs ≡ true
      → covers_any rows (v ∷ vs) ≡ true
  unfolding useful_wildcard
  wildcard_sound ctors ps v vs e hv hvs h k = elim (Bool-cases (has_literals rows)) [
    | inl q ↦ elim (Bool-cases (is_bool ty && both_booleans (collect_literals rows []))) [
      | inl b ↦
          let (one, other) = either-false _ _ (rw (q, useful_wildcard, b) at h) in
          both_sound ps v vs (ground arith) hv hvs one other k
      | inr b ↦
          default_sound rec sound rows ty tys fit ps v vs hvs (rw (q, useful_wildcard, b) at h) k
    ]
    | inr q ↦ constructors_sound ctors ps v vs e hv hvs (rw (q, useful_wildcard) at h) k
  ]

  head_sound :
      (p : SimplePat) (ctors : CtorSet) (ps : List SimplePat) (v : Val) (vs : List Val)
      → for_type ty ≡ some ctors
      → HasTy v ty
      → HaveTypes vs tys
      → useful_head rec (matrix rows (ty ∷ tys)) ty p ps ctors ≡ ok false
      → covers_row (p ∷ ps) (v ∷ vs) ≡ true
      → covers_any rows (v ∷ vs) ≡ true
  unfolding useful_head covers_row covers HasTy
  head_sound wildcard ctors ps v vs e hv hvs h k = wildcard_sound ctors ps v vs e hv hvs h k
  head_sound (literal l) ctors ps (opaque id) vs e hv hvs h k = cc
  head_sound (literal l) ctors ps (con t args) vs e hv hvs h k =
      let (kp, kr) =
        and-true (tag_eq (literal_tag l) t && covers_all SimplePats.nil args) (covers_row ps vs)
          k in
      let (kt, ka) = and-true (tag_eq (literal_tag l) t) (covers_all SimplePats.nil args) kp in
      literal_sound rec sound rows ty tys fit l ps t args vs (tag_eq→eq (literal_tag l) t kt) ka hvs
        h kr
  head_sound (ctor c qs) ctors ps (opaque id) vs e hv hvs h k = cc
  head_sound (ctor c qs) ctors ps (con t args) vs e hv hvs h k =
      elim (Option-cases (get_info ctors c)) [
        | inl none_found ↦ absurd (ground arith)
        | inr (info, found) ↦
            let (kp, kr) = and-true (tag_eq (tag c) t && covers_all qs args) (covers_row ps vs) k in
            let (kt, ka) = and-true (tag_eq (tag c) t) (covers_all qs args) kp in
            let at : tag c ≡ t = tag_eq→eq (tag c) t kt in
            let (fits, same) =
              get_info-All (InfoFits ty) ctors c info
                (for_type-InfoFits ty ctors (not_bool ty c t at hv.0) e) found in
            constructor_sound rec sound rows ty tys fit c info (pats qs ++ ps) t args vs fits.0
              (sym (ap (λ x. field_types (tag x) ty) same) ∙ fits.1) at hv hvs
              (rw (found, useful_head) at h)
              (covers_row-append (pats qs) ps (vals args) vs (covers_all-length qs args ka)
                ∙ rw (covers_row-pats qs args, ka) kr)
      ]

  column_sound :
      (p : SimplePat) (ps : List SimplePat) (v : Val) (vs : List Val)
      → HasTy v ty
      → HaveTypes vs tys
      → useful_column rec (matrix rows (ty ∷ tys)) (ty ∷ tys) p ps ≡ ok false
      → covers_row (p ∷ ps) (v ∷ vs) ≡ true
      → covers_any rows (v ∷ vs) ≡ true
  unfolding useful_column
  column_sound p ps v vs hv hvs h k = elim (Option-cases (for_type ty)) [
    | inl none_known ↦ absurd (ground arith)
    | inr (ctors, e) ↦ head_sound p ctors ps v vs e hv hvs (rw (e, useful_column) at h) k
  ]

is_useful-Sound : (fuel : ℕ) → Sound (is_useful fuel)
unfolding is_useful covers_row useful_column covers_any
is_useful-Sound zero rows cols ps vs fit hvs h k = cc
is_useful-Sound (suc fuel) [] [] [] [] fit hvs h k = absurd (ground arith)
is_useful-Sound (suc fuel) ([] ∷ rows) [] [] [] fit hvs h k = refl
is_useful-Sound (suc fuel) ((q ∷ qs) ∷ rows) [] [] [] fit hvs h k = elim (fit.0) [ ]
is_useful-Sound (suc fuel) rows (ty ∷ tys) [] [] fit hvs h k = elim hvs [ ]
is_useful-Sound (suc fuel) rows cols [] (v ∷ vs) fit hvs h k = cc
is_useful-Sound (suc fuel) rows cols (p ∷ ps) [] fit hvs h k = cc
is_useful-Sound (suc fuel) rows [] (p ∷ ps) (v ∷ vs) fit hvs h k = elim hvs [ ]
is_useful-Sound (suc fuel) rows (ty ∷ tys) (p ∷ ps) (v ∷ vs) fit hvs h k =
    column_sound (is_useful fuel) (is_useful-Sound fuel) rows ty tys fit p ps v vs hvs.0 hvs.1 h k

-- A pattern vector that is_useful rejects covers no values, of the types of the columns, that no
-- row of the matrix covers: whatever it covers, a row covers.
pub is_useful-covers_any :
    (fuel : ℕ) (m : Matrix) (pattern : List SimplePat) (vs : List Val)
    → RowsFit m.rows m.col_types
    → HaveTypes vs m.col_types
    → is_useful fuel m pattern ≡ ok false
    → covers_row pattern vs ≡ true
    → covers_any m.rows vs ≡ true
is_useful-covers_any fuel m pattern vs fit hvs h k =
    is_useful-Sound fuel m.rows m.col_types pattern vs fit hvs h k
