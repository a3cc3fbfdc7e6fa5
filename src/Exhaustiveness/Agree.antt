-- ===== src/Exhaustiveness/Agree.antt =====
-- The two lowerings of a typed pattern, for the exhaustiveness check and for code generation, match
-- the same values.
use starstream.Prelude.{
  get_elem?-lt_length, ℕ, String, str_eq, Bool, true, false, ◌≡◌, refl, arith, none, some, List, [],
  ◌∷◌, ok, ◌>>=◌, if◌then◌else◌,
}
use starstream.Types.{
  Ty, items, types_of, variants_of, unit_kind, tuple_kind, struct_kind, Fields, field, end,
}
use starstream.TypedPattern.{
  TypedPattern, TypedPatterns, StructFields, no_field, struct_field, PatternFits, PatternsFit,
  OptionalField, RequiredField, EachField, FieldOr,
}
use starstream.Matching.Pattern.{Compiled, Pat, Pats, field_types}
use starstream.Matching.Meaning.{Val, matches, Fits, IsCtorOf}
use starstream.Matching.Lower as Tree
use starstream.Exhaustiveness.Pattern.{
  Ctor, record_ctor, tuple_ctor, enum_variant, SimplePat, SimplePats,
}
use starstream.Exhaustiveness.Meaning.{tag, covers, SimpleFits}
use starstream.Exhaustiveness.Lower.{
  lower_pattern, lower_zip, lower_field, each_field, unwrap_or, length_patterns,
}
use starstream.Exhaustiveness.Agreed.{
  Agreed, AllAgreed, nil_matches, cons-AllAgreed, ctor-Agreed, variant-fields, find_variant-fields,
  wildcard-Agreed, literal-Agreed,
}

each_field-AllAgreed :
    (P : String → Ty → Type 0) (f : String → Ty → Compiled SimplePat)
    (g : String → Ty → Compiled Pat) (fs : Fields)
    → ((n : String) (t : Ty) → P n t → Agreed (f n t) (g n t) t)
    → EachField P fs
    → AllAgreed (each_field f fs) (Tree.each_field g fs) (types_of fs)
unfolding each_field Tree.each_field SimpleFits Fits matches covers
each_field-AllAgreed P f g end agree h =
    (SimplePats.nil, Pats.nil, refl, refl, tt, tt, λ vs. nil_matches vs)
each_field-AllAgreed P f g (field n t fs) agree h =
    cons-AllAgreed (f n t) (g n t) (each_field f fs) (Tree.each_field g fs) t (types_of fs)
      (agree n t h.0) (each_field-AllAgreed P f g fs agree h.1)

-- A constructor whose arguments agree.
with_arguments :
    (c : Ctor) (ty : Ty) (ts : List Ty) (a : Compiled SimplePats) (b : Compiled Pats)
    → IsCtorOf (tag c) ty
    → field_types (tag c) ty ≡ ok ts
    → AllAgreed a b ts
    → Agreed (do args ← a; ok (SimplePat.ctor c args)) (do args ← b; ok (Pat.ctor (tag c) args)) ty
with_arguments c ty ts a b o e (ss, qs, ea, eb, fs, fq, m) =
    rw (ea, eb) (ctor-Agreed c ty ts ss qs o e fs fq m)

if-Agreed :
    (b : Bool) (P Q : Type 0) (s s' : Compiled SimplePat) (q q' : Compiled Pat) (t : Ty)
    → FieldOr b P Q
    → (P → Agreed s q t)
    → (Q → Agreed s' q' t)
    → Agreed (if b then s else s') (if b then q else q') t
if-Agreed true P Q s s' q q' t h here later = here h
if-Agreed false P Q s s' q q' t h here later = later h

module _ (arm_idx : ℕ) where
  mutual
    unfolding lower_pattern Tree.lower_pattern PatternFits unwrap_or SimpleFits Fits field_types
        matches covers

    pub lower_pattern-Agreed :
        (p : TypedPattern) (ty : Ty)
        → PatternFits p ty
        → Agreed (lower_pattern p ty) (Tree.lower_pattern arm_idx p ty) ty
    lower_pattern-Agreed (TypedPattern.binding name) ty h =
        wildcard-Agreed (some (arm_idx, name)) ty
    lower_pattern-Agreed TypedPattern.wildcard ty h = wildcard-Agreed none ty
    lower_pattern-Agreed (TypedPattern.literal l) ty h = literal-Agreed l ty h
    lower_pattern-Agreed (TypedPattern.struct name fields) (Ty.record_type r fs) ((n, e), h) =
        rw e (
          with_arguments (record_ctor n) (Ty.record_type r fs) (types_of fs)
            (each_field (lower_field fields) fs)
            (Tree.each_field (Tree.lower_field arm_idx fields) fs) tt refl
            (each_field-AllAgreed (OptionalField fields) (lower_field fields)
              (Tree.lower_field arm_idx fields) fs (λ m t k. lower_field-Agreed fields m t k) h))
    lower_pattern-Agreed (TypedPattern.struct name fields) (Ty.enum e vs) (n, i, fs, q, found, h) =
        let (l, k) = find_variant-fields e vs n i (struct_kind fs) found in
        rw (q, found)
          (with_arguments (enum_variant e i n) (Ty.enum e vs) (types_of fs)
            (each_field (lower_field fields) fs)
            (Tree.each_field (Tree.required_field arm_idx fields) fs) l k
            (each_field-AllAgreed (RequiredField fields) (lower_field fields)
              (Tree.required_field arm_idx fields) fs (λ m t k. required_field-Agreed fields m t k)
              h))
    lower_pattern-Agreed (TypedPattern.struct name fields) ty h = absurd (ground arith)
    lower_pattern-Agreed (TypedPattern.tuple name ps) (Ty.enum e vs) (n, i, ts, q, found, h) =
        let (l, k) = find_variant-fields e vs n i (tuple_kind ts) found in
        rw (q, found)
          (with_arguments (enum_variant e i n) (Ty.enum e vs) (items ts) (lower_zip ps (items ts))
            (Tree.lower_zip arm_idx ps (items ts)) l k (lower_zip-AllAgreed ps (items ts) h))
    lower_pattern-Agreed (TypedPattern.tuple name ps) ty h = absurd (ground arith)
    lower_pattern-Agreed (TypedPattern.anon_tuple ps) (Ty.tuple ts) h =
        with_arguments (tuple_ctor (length_patterns ps)) (Ty.tuple ts) (items ts)
          (lower_zip ps (items ts)) (Tree.lower_zip arm_idx ps (items ts)) tt refl
          (lower_zip-AllAgreed ps (items ts) h)
    lower_pattern-Agreed (TypedPattern.anon_tuple ps) ty h = absurd (ground arith)
    lower_pattern-Agreed (TypedPattern.constant name variant) (Ty.enum e vs) (n, m, q, g) = rw q (
        ctor-Agreed (enum_variant e variant n) (Ty.enum e vs) [] SimplePats.nil Pats.nil
          (get_elem?-lt_length (variants_of vs) variant g)
          (variant-fields e vs variant m unit_kind g) tt tt nil_matches)
    lower_pattern-Agreed (TypedPattern.constant name variant) ty h = absurd (ground arith)

    lower_zip-AllAgreed :
        (ps : TypedPatterns) (ts : List Ty)
        → PatternsFit ps ts
        → AllAgreed (lower_zip ps ts) (Tree.lower_zip arm_idx ps ts) ts
    lower_zip-AllAgreed TypedPatterns.nil [] h =
        (SimplePats.nil, Pats.nil, refl, refl, tt, tt, nil_matches)
    lower_zip-AllAgreed TypedPatterns.nil (t ∷ ts) h = elim h [ ]
    lower_zip-AllAgreed (TypedPatterns.cons p ps) [] h = elim h [ ]
    lower_zip-AllAgreed (TypedPatterns.cons p ps) (t ∷ ts) h =
        cons-AllAgreed (lower_pattern p t) (Tree.lower_pattern arm_idx p t) (lower_zip ps ts)
          (Tree.lower_zip arm_idx ps ts) t ts (lower_pattern-Agreed p t h.0)
          (lower_zip-AllAgreed ps ts h.1)

    lower_field-Agreed :
        (fields : StructFields) (name : String) (t : Ty)
        → OptionalField fields name t
        → Agreed (lower_field fields name t) (Tree.lower_field arm_idx fields name t) t
    lower_field-Agreed no_field name t h = wildcard-Agreed none t
    lower_field-Agreed (struct_field n p fields) name t h =
        if-Agreed (str_eq n name) (PatternFits p t) (OptionalField fields name t)
          (lower_pattern p t) (lower_field fields name t) (Tree.lower_pattern arm_idx p t)
          (Tree.lower_field arm_idx fields name t) t h (λ k. lower_pattern-Agreed p t k)
          (λ k. lower_field-Agreed fields name t k)

    required_field-Agreed :
        (fields : StructFields) (name : String) (t : Ty)
        → RequiredField fields name t
        → Agreed (lower_field fields name t) (Tree.required_field arm_idx fields name t) t
    required_field-Agreed no_field name t h = elim h [ ]
    required_field-Agreed (struct_field n p fields) name t h =
        if-Agreed (str_eq n name) (PatternFits p t) (RequiredField fields name t)
          (lower_pattern p t) (lower_field fields name t) (Tree.lower_pattern arm_idx p t)
          (Tree.required_field arm_idx fields name t) t h (λ k. lower_pattern-Agreed p t k)
          (λ k. required_field-Agreed fields name t k)

-- A pattern that fits its type, as type inference leaves it, is lowered without a panic by both
-- lower_pattern functions, and both results fit the type: each constructor is one of its type, with
-- an argument for each of its fields.
pub lower_pattern-Fits :
    (arm_idx : ℕ) (p : TypedPattern) (ty : Ty)
    → PatternFits p ty
    → (s : SimplePat) × (q : Pat) × (lower_pattern p ty ≡ ok s)
      × (Tree.lower_pattern arm_idx p ty ≡ ok q)
      × SimpleFits s ty
      × Fits q ty
lower_pattern-Fits arm_idx p ty h =
    let (s, q, e, e', fs, fq, _) = lower_pattern-Agreed arm_idx p ty h in (s, q, e, e', fs, fq)

-- The exhaustiveness check and code generation lower a pattern that fits its type to patterns that
-- match the same values.
pub matches-covers :
    (arm_idx : ℕ) (p : TypedPattern) (ty : Ty) (s : SimplePat) (q : Pat) (v : Val)
    → PatternFits p ty
    → lower_pattern p ty ≡ ok s
    → Tree.lower_pattern arm_idx p ty ≡ ok q
    → matches q v ≡ covers s v
matches-covers arm_idx p ty s q v h e e' =
    let (s', q', f, f', _, _, m) = lower_pattern-Agreed arm_idx p ty h in
    let same : s' ≡ s = cc in let same' : q' ≡ q = cc in rw (← same) (rw (← same') (m v))
