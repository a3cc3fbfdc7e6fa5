-- ===== src/Matching/Branches.antt =====
-- The two ways in which `compile` makes its matrix smaller: specialization and the default matrix.
use starstream.Prelude.{
  ℕ_discrete, ℕ, zero, suc, ◌<◌, ◌≡◌, refl, arith, true, false, none, List, [], ◌∷◌, length, ok,
  All, inl, inr, replicate, Bool-cases,
}
use starstream.Types.{tuple, enum, unit, record_type, bool, variants_of, Ty}
use starstream.Matching.Pattern.{
  Ctor, ctor_eq, Pat, wildcard, ctor, Pats, pats, field_types, arity, enum_variant, bool_true,
  bool_false, struct, unit_ctor,
}
use starstream.Matching.Compile.{
  is_complete_signature, has_variants, specialize_pat, default_pat, contains,
}
use starstream.Matching.Meaning.{
  IsCtorOf, Fits, AllFit, RowFits, Val, Vals, vals, con, opaque, matches, matches_all, match_row,
  size, size_row, size_all, HasTy, AllHaveTy, HaveTypes,
}
use starstream.Matching.Slices.{HeadIn, CtorFits}
use starstream.Matching.Decompose.{Alike, AlwaysTaken}

pub ctor_eq→eq : (c d : Ctor) → ctor_eq c d ≡ true → c ≡ d
ctor_eq→eq c d h = ground arith

-- A constructor has as many fields as they have types.
pub arity-field_types :
    (c : Ctor) (ty : Ty) {us : List Ty} → field_types c ty ≡ ok us → arity c ty ≡ ok (length us)
unfolding arity field_types
arity-field_types c ty h = ground arith

-- Patterns and values under a constructor, as lists.
AllFit-pats : (ps : Pats) (ts : List Ty) → AllFit ps ts → RowFits (pats ps) ts
unfolding Fits
AllFit-pats Pats.nil [] h = tt
AllFit-pats Pats.nil (t ∷ ts) h = elim h [ ]
AllFit-pats (Pats.cons p ps) [] h = elim h [ ]
AllFit-pats (Pats.cons p ps) (t ∷ ts) h = (h.0, AllFit-pats ps ts h.1)

pub AllHaveTy-vals : (vs : Vals) (ts : List Ty) → AllHaveTy vs ts → HaveTypes (vals vs) ts
unfolding HasTy
AllHaveTy-vals Vals.nil [] h = tt
AllHaveTy-vals Vals.nil (t ∷ ts) h = elim h [ ]
AllHaveTy-vals (Vals.cons v vs) [] h = elim h [ ]
AllHaveTy-vals (Vals.cons v vs) (t ∷ ts) h = (h.0, AllHaveTy-vals vs ts h.1)

size-pats : (ps : Pats) → size_row (pats ps) ≡ size_all ps
unfolding size size_row
size-pats Pats.nil = refl
size-pats (Pats.cons p ps) = omega (arith, size-pats ps)

match_row-pats : (ps : Pats) (vs : Vals) → match_row (pats ps) (vals vs) ≡ matches_all ps vs
unfolding match_row matches
match_row-pats Pats.nil Vals.nil = refl
match_row-pats Pats.nil (Vals.cons v vs) = refl
match_row-pats (Pats.cons p ps) Vals.nil = refl
match_row-pats (Pats.cons p ps) (Vals.cons v vs) = ground (arith, match_row-pats ps vs)

wildcards-RowFits : (ts : List Ty) → RowFits (replicate (length ts) (wildcard none)) ts
unfolding Fits
wildcards-RowFits [] = tt
wildcards-RowFits (t ∷ ts) = (tt, wildcards-RowFits ts)

size-wildcards : (n : ℕ) → size_row (replicate n (wildcard none)) ≡ 0
unfolding size size_row
size-wildcards zero = refl
size-wildcards (suc n) = omega (arith, size-wildcards n)

match_row-wildcards : (vs : List Val) → match_row (replicate (length vs) (wildcard none)) vs ≡ true
unfolding match_row matches
match_row-wildcards [] = refl
match_row-wildcards (v ∷ vs) = match_row-wildcards vs

module _ (ty : Ty) (sigma : List Ctor) where
  pub specialize_pat-AlwaysTaken :
      (c : Ctor) (us : List Ty)
      → field_types c ty ≡ ok us
      → AlwaysTaken ty sigma us (specialize_pat c (length us))
  unfolding Fits size
  specialize_pat-AlwaysTaken c us e (wildcard b) f h =
      (wildcards-RowFits us, omega (arith, size-wildcards (length us)))
  specialize_pat-AlwaysTaken c us e (ctor d ps) (f, (ts, e', fs)) h =
      elim (Bool-cases (ctor_eq d c)) [
        | inl k ↦
            let same = ctor_eq→eq d c k in
            let q : ts ≡ us = cc in
            rw k (rw (← q) (AllFit-pats ps ts fs), omega (arith, size-pats ps))
        | inr k ↦ rw k refl
      ]

  pub default_pat-AlwaysTaken : AlwaysTaken ty sigma [] default_pat
  unfolding size size_row
  default_pat-AlwaysTaken (wildcard b) f h = (tt, omega arith)
  default_pat-AlwaysTaken (ctor c ps) f h = refl

pub specialize_pat-Alike :
    (c d : Ctor) (n : ℕ) (args : Vals)
    → ctor_eq c d ≡ true
    → length (vals args) ≡ n
    → (p : Pat) → Alike (con d args) (vals args) p (specialize_pat c n p)
unfolding matches
specialize_pat-Alike c d n args k l (wildcard b) = rw (← l) (match_row-wildcards (vals args))
specialize_pat-Alike c d n args k l (ctor d' ps) =
    let same = ctor_eq→eq c d k in
    elim (Bool-cases (ctor_eq d' c)) [
      | inl k' ↦ rw k' (ground (arith, match_row-pats ps args))
      | inr k' ↦ rw k' (ground arith)
    ]

-- No constructor of `sigma` makes the value.
abbrev pub NotAmong : List Ctor → Val → Type 0
NotAmong sigma (con d args) = contains sigma d ≡ false
NotAmong sigma (opaque id) = Unit

pub default_pat-Alike :
    (sigma : List Ctor) (v : Val)
    → NotAmong sigma v
    → (p : Pat) → HeadIn sigma p
    → Alike v [] p (default_pat p)
unfolding matches match_row
default_pat-Alike sigma v h (wildcard b) k = refl
default_pat-Alike sigma (opaque id) h (ctor c ps) k = refl
default_pat-Alike sigma (con d args) h (ctor c ps) k = elim (Bool-cases (ctor_eq c d)) [
  | inl e ↦ let same = ctor_eq→eq c d e in ground arith
  | inr e ↦ rw e
]

has_variants-contains :
    (k i : ℕ) (cs : List Ctor)
    → has_variants k cs ≡ true
    → i < k
    → contains cs (enum_variant i) ≡ true
unfolding has_variants
has_variants-contains zero i cs h l = elim l [ ]
has_variants-contains (suc k) i cs h l = elim (ℕ_discrete i k) [
  | yes e ↦ rw e (ground arith)
  | no ne ↦ has_variants-contains k i cs (ground arith) (omega arith)
]

-- The types with one constructor only.
abbrev IsSingle : Ty → Type 0
IsSingle (record_type name fs) = Unit
IsSingle (tuple ts) = Unit
IsSingle unit = Unit
IsSingle _ = ⊥

IsSingle-ctor_eq :
    (ty : Ty) (c d : Ctor) → IsSingle ty → IsCtorOf c ty → IsCtorOf d ty → ctor_eq c d ≡ true
IsSingle-ctor_eq ty struct struct s p q = refl
IsSingle-ctor_eq ty unit_ctor unit_ctor s p q = refl
IsSingle-ctor_eq ty c d s p q = ground arith

-- A complete signature has every constructor of the type.
pub complete-contains :
    (sigma : List Ctor) (ty : Ty) (c d : Ctor)
    → All (CtorFits ty) (c ∷ sigma)
    → IsCtorOf d ty
    → is_complete_signature (c ∷ sigma) ty ≡ true
    → contains (c ∷ sigma) d ≡ true
unfolding is_complete_signature
complete-contains sigma (enum name vs) c (enum_variant i) a f h =
    has_variants-contains (length (variants_of vs)) i (c ∷ sigma) (ground arith) f
complete-contains sigma bool c bool_true a f h = ground arith
complete-contains sigma bool c bool_false a f h = ground arith
complete-contains sigma (tuple ts) c d a f h =
    unfold contains in (ground (arith, IsSingle-ctor_eq (tuple ts) c d tt a.0.0 f))
complete-contains sigma (record_type name fs) c d a f h =
    unfold contains in (ground (arith, IsSingle-ctor_eq (record_type name fs) c d tt a.0.0 f))
complete-contains sigma unit c d a f h =
    unfold contains in (ground (arith, IsSingle-ctor_eq unit c d tt a.0.0 f))
complete-contains sigma ty c d a f h = ground arith
