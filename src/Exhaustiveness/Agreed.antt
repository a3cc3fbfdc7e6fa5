-- ===== src/Exhaustiveness/Agreed.antt =====
-- What it is for the two lowerings of a pattern to agree: constructors, literals and wildcards.
use starstream.Prelude.{
  get_elem?-lt_length, ℕ, suc, ◌+◌, ◌<◌, String, str_eq, true, false, ◌≡◌, refl, arith, Option,
  none, some, List, [], ◌∷◌, length, get_elem?, ok, ◌>>=◌, Bool-cases, inl, inr,
}
use starstream.Types.{Ty, payload, variants_of, VariantKind, Variants, EnumVariantType}
use starstream.TypedPattern.{Literal, find_variant, IsLiteral}
use starstream.Matching.Pattern.{Compiled, Pat, Pats, enum_variant as variant_tag, field_types}
use starstream.Matching.Meaning.{
  Val, Vals, con, opaque, matches, matches_all, Fits, AllFit, IsCtorOf,
}
use starstream.Matching.Lower as Tree
use starstream.Exhaustiveness.Pattern.{SimpleLiteral, Ctor, SimplePat, SimplePats}
use starstream.Exhaustiveness.Meaning.{
  tag, literal_tag, covers, covers_all, SimpleFits, AllSimpleFit,
}
use starstream.Exhaustiveness.Lower.{lower_literal, unwrap_or}

-- Both results are there, fit the type and match the same values.
abbrev pub Agreed : Compiled SimplePat → Compiled Pat → Ty → Type 0
Agreed a b ty =
    (s : SimplePat) × (q : Pat) × (a ≡ ok s)
    × (b ≡ ok q)
    × SimpleFits s ty
    × Fits q ty
    × ((v : Val) → matches q v ≡ covers s v)

abbrev pub AllAgreed : Compiled SimplePats → Compiled Pats → List Ty → Type 0
AllAgreed a b ts =
    (ss : SimplePats) × (qs : Pats) × (a ≡ ok ss)
    × (b ≡ ok qs)
    × AllSimpleFit ss ts
    × AllFit qs ts
    × ((vs : Vals) → matches_all qs vs ≡ covers_all ss vs)

pub matches_cons :
    (s : SimplePat) (q : Pat) (ss : SimplePats) (qs : Pats)
    → ((v : Val) → matches q v ≡ covers s v)
    → ((vs : Vals) → matches_all qs vs ≡ covers_all ss vs)
    → (vs : Vals) → matches_all (Pats.cons q qs) vs ≡ covers_all (SimplePats.cons s ss) vs
unfolding matches covers
matches_cons s q ss qs m ms Vals.nil = refl
matches_cons s q ss qs m ms (Vals.cons v vs) = rw (m v, ms vs)

pub nil_matches : (vs : Vals) → matches_all Pats.nil vs ≡ covers_all SimplePats.nil vs
unfolding matches covers
nil_matches Vals.nil = refl
nil_matches (Vals.cons v vs) = refl

pub matches_ctor :
    (c : Ctor) (ss : SimplePats) (qs : Pats)
    → ((vs : Vals) → matches_all qs vs ≡ covers_all ss vs)
    → (v : Val) → matches (Pat.ctor (tag c) qs) v ≡ covers (SimplePat.ctor c ss) v
unfolding matches covers
matches_ctor c ss qs m (opaque id) = refl
matches_ctor c ss qs m (con t vs) = rw (m vs)

pub matches_literal :
    (l : SimpleLiteral) (v : Val)
    → matches (Pat.ctor (literal_tag l) Pats.nil) v ≡ covers (SimplePat.literal l) v
unfolding matches covers
matches_literal l (opaque id) = refl
matches_literal l (con t vs) = rw (nil_matches vs)

pub cons-AllAgreed :
    (a : Compiled SimplePat) (b : Compiled Pat) (rest : Compiled SimplePats) (rest' : Compiled Pats)
    (t : Ty) (ts : List Ty)
    → Agreed a b t
    → AllAgreed rest rest' ts
    → AllAgreed
        (do arg ← a; args ← rest; ok (SimplePats.cons arg args))
        (do arg ← b; args ← rest'; ok (Pats.cons arg args))
        (t ∷ ts)
unfolding SimpleFits Fits matches covers
cons-AllAgreed a b rest rest' t ts (s, q, ea, eb, fs, fq, m) (ss, qs, eas, ebs, fss, fqs, ms) = (
  SimplePats.cons s ss,
  Pats.cons q qs,
  rw (ea, eas),
  rw (eb, ebs),
  (fs, fss),
  (fq, fqs),
  λ vs. matches_cons s q ss qs m ms vs,
)

pub ctor-Agreed :
    (c : Ctor) (ty : Ty) (ts : List Ty) (ss : SimplePats) (qs : Pats)
    → IsCtorOf (tag c) ty
    → field_types (tag c) ty ≡ ok ts
    → AllSimpleFit ss ts
    → AllFit qs ts
    → ((vs : Vals) → matches_all qs vs ≡ covers_all ss vs)
    → Agreed (ok (SimplePat.ctor c ss)) (ok (Pat.ctor (tag c) qs)) ty
unfolding SimpleFits Fits matches covers
ctor-Agreed c ty ts ss qs o e fs fq m = (
  SimplePat.ctor c ss,
  Pat.ctor (tag c) qs,
  refl,
  refl,
  (o, (ts, e, fs)),
  (o, (ts, e, fq)),
  λ v. matches_ctor c ss qs m v,
)

pub find_variant-get_elem? :
    (vs : List EnumVariantType) (name : String) (k i : ℕ) (kind : VariantKind)
    → find_variant vs name k ≡ some (i, kind)
    → (j : ℕ) × (n : String) × (i ≡ k + j) × (get_elem? vs j ≡ some (n, kind))
unfolding find_variant
find_variant-get_elem? [] name k i kind h = cc
find_variant-get_elem? ((n, kind') ∷ vs) name k i kind h = elim (Bool-cases (str_eq n name)) [
  | inl e ↦ (0, n, ground arith, ground arith)
  | inr e ↦
      let (j, m, q, g) = find_variant-get_elem? vs name (suc k) i kind (rw e at h) in
      (suc j, m, omega arith, g)
]

-- The variant that a pattern names is a constructor of the type, with the payload of the variant.
module _ (enum_name : String) (variants : Variants) where
  pub variant-fields :
      (i : ℕ) (name : String) (kind : VariantKind)
      → get_elem? (variants_of variants) i ≡ some (name, kind)
      → field_types (variant_tag i) (Ty.enum enum_name variants) ≡ ok (payload kind)
  unfolding field_types
  variant-fields i name kind e = ground arith

  pub find_variant-fields :
      (name : String) (i : ℕ) (kind : VariantKind)
      → find_variant (variants_of variants) name 0 ≡ some (i, kind)
      → (i < length (variants_of variants))
        × (field_types (variant_tag i) (Ty.enum enum_name variants) ≡ ok (payload kind))
  find_variant-fields name i kind e =
      let (j, n, q, g) = find_variant-get_elem? (variants_of variants) name 0 i kind e in
      let same : i ≡ j = omega arith in
      rw same (get_elem?-lt_length (variants_of variants) j g, variant-fields j n kind g)

-- A variable, or `_`.
pub wildcard-Agreed :
    (binding : Option (ℕ × String)) (ty : Ty)
    → Agreed (ok SimplePat.wildcard) (ok (Pat.wildcard binding)) ty
unfolding SimpleFits Fits matches covers
wildcard-Agreed binding ty =
    (SimplePat.wildcard, Pat.wildcard binding, refl, refl, tt, tt, λ v. refl)

pub literal_tag-lower_literal : (l : Literal) → Tree.lower_literal l ≡ literal_tag (lower_literal l)
unfolding Tree.lower_literal lower_literal unwrap_or
literal_tag-lower_literal (Literal.integer none) = refl
literal_tag-lower_literal (Literal.integer (some n)) = refl
literal_tag-lower_literal (Literal.boolean true) = refl
literal_tag-lower_literal (Literal.boolean false) = refl
literal_tag-lower_literal Literal.unit_literal = refl

pub literal-fields :
    (l : Literal) (ty : Ty)
    → IsLiteral l ty
    → IsCtorOf (literal_tag (lower_literal l)) ty
      × (field_types (literal_tag (lower_literal l)) ty ≡ ok [])
unfolding lower_literal unwrap_or field_types
literal-fields (Literal.integer (some n)) (Ty.int w) h = (tt, refl)
literal-fields (Literal.boolean true) Ty.bool h = (tt, refl)
literal-fields (Literal.boolean false) Ty.bool h = (tt, refl)
literal-fields Literal.unit_literal Ty.unit h = (tt, refl)
literal-fields l ty h = absurd (ground arith)

pub literal-Agreed :
    (l : Literal) (ty : Ty)
    → IsLiteral l ty
    → Agreed
        (ok (SimplePat.literal (lower_literal l)))
        (ok (Pat.ctor (Tree.lower_literal l) Pats.nil))
        ty
unfolding SimpleFits Fits
literal-Agreed l ty h =
    let (o, e) = literal-fields l ty h in
    (
      SimplePat.literal (lower_literal l),
      Pat.ctor (literal_tag (lower_literal l)) Pats.nil,
      refl,
      rw (literal_tag-lower_literal l) refl,
      o,
      (o, ([], e, tt)),
      λ v. matches_literal (lower_literal l) v,
    )
