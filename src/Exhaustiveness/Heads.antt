-- ===== src/Exhaustiveness/Heads.antt =====
-- What the collected constructors and literals of a column say of its rows.
use starstream.Prelude.{
  true, false, ◌⊎◌, str_eq_iff, ◌≡◌, refl, arith, List, [], ◌∷◌, ◌++◌, length, All, Bool-cases, inl,
  inr,
}
use starstream.Exhaustiveness.Pattern.{
  SimpleLiteral, literal_eq, enum_variant, record_ctor, tuple_ctor, SimplePats, Ctor, ctor_eq,
  wildcard, ctor, literal,
}
use starstream.Exhaustiveness.Useful.{
  PatternRow, collect_ctors, collect_literals, push_ctor, push_literal, contains_ctor,
  contains_literal, has_literals,
}
use starstream.Exhaustiveness.Rows.{literal_eq→eq}
use starstream.Exhaustiveness.Constructors.{ctor_eq→eq}

abbrev pub NoCtor : PatternRow → Type 0
NoCtor (ctor c args ∷ ps) = ⊥
NoCtor _ = Unit

abbrev pub NoLiteral : PatternRow → Type 0
NoLiteral (literal l ∷ ps) = ⊥
NoLiteral _ = Unit

-- The row does not start with this constructor, or with this literal.
abbrev pub Avoids : Ctor → PatternRow → Type 0
Avoids c (ctor d args ∷ ps) = ctor_eq d c ≡ false
Avoids c _ = Unit

abbrev pub AvoidsLiteral : SimpleLiteral → PatternRow → Type 0
AvoidsLiteral l (literal k ∷ ps) = literal_eq k l ≡ false
AvoidsLiteral l _ = Unit

pub has_literals-NoLiteral :
    (rows : List PatternRow) → has_literals rows ≡ false → All NoLiteral rows
unfolding has_literals
has_literals-NoLiteral [] h = tt
has_literals-NoLiteral ([] ∷ rows) h = (tt, has_literals-NoLiteral rows h)
has_literals-NoLiteral ((wildcard ∷ ps) ∷ rows) h = (tt, has_literals-NoLiteral rows h)
has_literals-NoLiteral ((ctor c args ∷ ps) ∷ rows) h = (tt, has_literals-NoLiteral rows h)
has_literals-NoLiteral ((literal l ∷ ps) ∷ rows) h = cc

pub ctor_eq_refl : (c : Ctor) → ctor_eq c c ≡ true
ctor_eq_refl (enum_variant e i n) = ground (arith, str_eq_iff e e, str_eq_iff n n)
ctor_eq_refl (record_ctor r) = ground (arith, str_eq_iff r r)
ctor_eq_refl (tuple_ctor n) = ground arith

contains_ctor-snoc :
    (cs : List Ctor) (d c : Ctor)
    → contains_ctor cs c ≡ true ⊎ ctor_eq d c ≡ true
    → contains_ctor (cs ++ d ∷ []) c ≡ true
unfolding contains_ctor
contains_ctor-snoc [] d c (inl h) = cc
contains_ctor-snoc [] d c (inr h) = ground arith
contains_ctor-snoc (b ∷ cs) d c h = elim (Bool-cases (ctor_eq b c)) [
  | inl e ↦ ground arith
  | inr e ↦ elim h [
    | inl k ↦ ground (arith, contains_ctor-snoc cs d c (inl (ground arith)))
    | inr k ↦ ground (arith, contains_ctor-snoc cs d c (inr k))
  ]
]

push_ctor-contains :
    (row : PatternRow) (cs : List Ctor) (c : Ctor)
    → contains_ctor cs c ≡ true
    → contains_ctor (push_ctor row cs) c ≡ true
push_ctor-contains [] cs c h = h
push_ctor-contains (wildcard ∷ ps) cs c h = h
push_ctor-contains (literal l ∷ ps) cs c h = h
push_ctor-contains (ctor d args ∷ ps) cs c h = elim (Bool-cases (contains_ctor cs d)) [
  | inl e ↦ rw e h
  | inr e ↦ rw e (contains_ctor-snoc cs d c (inl h))
]

collect_ctors-contains :
    (rows : List PatternRow) (cs : List Ctor) (c : Ctor)
    → contains_ctor cs c ≡ true
    → contains_ctor (collect_ctors rows cs) c ≡ true
unfolding collect_ctors
collect_ctors-contains [] cs c h = h
collect_ctors-contains (row ∷ rows) cs c h =
    collect_ctors-contains rows (push_ctor row cs) c (push_ctor-contains row cs c h)

push_ctor-head :
    (d c : Ctor) (args : SimplePats) (ps : PatternRow) (cs : List Ctor)
    → ctor_eq d c ≡ true
    → contains_ctor (push_ctor (ctor d args ∷ ps) cs) c ≡ true
push_ctor-head d c args ps cs h = elim (Bool-cases (contains_ctor cs d)) [
  | inl e ↦ let same = ctor_eq→eq d c h in rw (e, ← same) e
  | inr e ↦ rw e (contains_ctor-snoc cs d c (inr h))
]

avoided :
    (c : Ctor) (row : PatternRow) (rows : List PatternRow) (cs : List Ctor)
    → contains_ctor (collect_ctors rows (push_ctor row cs)) c ≡ false
    → Avoids c row
avoided c [] rows cs h = tt
avoided c (wildcard ∷ ps) rows cs h = tt
avoided c (literal l ∷ ps) rows cs h = tt
avoided c (ctor d args ∷ ps) rows cs h = elim (Bool-cases (ctor_eq d c)) [
  | inl e ↦
      let seen =
        collect_ctors-contains rows (push_ctor (ctor d args ∷ ps) cs) c
          (push_ctor-head d c args ps cs e) in
      cc
  | inr e ↦ e
]

-- A constructor that is not collected starts no row.
pub collect_ctors-Avoids :
    (c : Ctor) (rows : List PatternRow) (cs : List Ctor)
    → contains_ctor (collect_ctors rows cs) c ≡ false
    → All (Avoids c) rows
unfolding collect_ctors
collect_ctors-Avoids c [] cs h = tt
collect_ctors-Avoids c (row ∷ rows) cs h =
    (avoided c row rows cs h, collect_ctors-Avoids c rows (push_ctor row cs) h)

Avoids-NoCtor : (rows : List PatternRow) → ((c : Ctor) → All (Avoids c) rows) → All NoCtor rows
Avoids-NoCtor [] h = tt
Avoids-NoCtor ([] ∷ rows) h = (tt, Avoids-NoCtor rows (λ c. (h c).1))
Avoids-NoCtor ((wildcard ∷ ps) ∷ rows) h = (tt, Avoids-NoCtor rows (λ c. (h c).1))
Avoids-NoCtor ((literal l ∷ ps) ∷ rows) h = (tt, Avoids-NoCtor rows (λ c. (h c).1))
Avoids-NoCtor ((ctor d args ∷ ps) ∷ rows) h =
    let avoids = (h d).0 in let same = ctor_eq_refl d in cc

nothing_contained : (cs : List Ctor) (c : Ctor) → length cs ≡ 0 → contains_ctor cs c ≡ false
unfolding contains_ctor
nothing_contained [] c h = refl
nothing_contained (d ∷ cs) c h = absurd (omega arith)

pub collect_ctors-NoCtor :
    (rows : List PatternRow) → length (collect_ctors rows []) ≡ 0 → All NoCtor rows
collect_ctors-NoCtor rows h =
    Avoids-NoCtor rows
      (λ c. collect_ctors-Avoids c rows [] (nothing_contained (collect_ctors rows []) c h))

contains_literal-snoc :
    (ls : List SimpleLiteral) (k l : SimpleLiteral)
    → contains_literal ls l ≡ true ⊎ literal_eq k l ≡ true
    → contains_literal (ls ++ k ∷ []) l ≡ true
unfolding contains_literal
contains_literal-snoc [] k l (inl h) = cc
contains_literal-snoc [] k l (inr h) = ground arith
contains_literal-snoc (j ∷ ls) k l h = elim (Bool-cases (literal_eq j l)) [
  | inl e ↦ ground arith
  | inr e ↦ elim h [
    | inl q ↦ ground (arith, contains_literal-snoc ls k l (inl (ground arith)))
    | inr q ↦ ground (arith, contains_literal-snoc ls k l (inr q))
  ]
]

push_literal-contains :
    (row : PatternRow) (ls : List SimpleLiteral) (l : SimpleLiteral)
    → contains_literal ls l ≡ true
    → contains_literal (push_literal row ls) l ≡ true
push_literal-contains [] ls l h = h
push_literal-contains (wildcard ∷ ps) ls l h = h
push_literal-contains (ctor d args ∷ ps) ls l h = h
push_literal-contains (literal k ∷ ps) ls l h = elim (Bool-cases (contains_literal ls k)) [
  | inl e ↦ rw e h
  | inr e ↦ rw e (contains_literal-snoc ls k l (inl h))
]

collect_literals-contains :
    (rows : List PatternRow) (ls : List SimpleLiteral) (l : SimpleLiteral)
    → contains_literal ls l ≡ true
    → contains_literal (collect_literals rows ls) l ≡ true
unfolding collect_literals
collect_literals-contains [] ls l h = h
collect_literals-contains (row ∷ rows) ls l h =
    collect_literals-contains rows (push_literal row ls) l (push_literal-contains row ls l h)

push_literal-head :
    (k l : SimpleLiteral) (ps : PatternRow) (ls : List SimpleLiteral)
    → literal_eq k l ≡ true
    → contains_literal (push_literal (literal k ∷ ps) ls) l ≡ true
push_literal-head k l ps ls h = elim (Bool-cases (contains_literal ls k)) [
  | inl e ↦ let same = literal_eq→eq k l h in rw (e, ← same) e
  | inr e ↦ rw e (contains_literal-snoc ls k l (inr h))
]

avoided_literal :
    (l : SimpleLiteral) (row : PatternRow) (rows : List PatternRow) (ls : List SimpleLiteral)
    → contains_literal (collect_literals rows (push_literal row ls)) l ≡ false
    → AvoidsLiteral l row
avoided_literal l [] rows ls h = tt
avoided_literal l (wildcard ∷ ps) rows ls h = tt
avoided_literal l (ctor d args ∷ ps) rows ls h = tt
avoided_literal l (literal k ∷ ps) rows ls h = elim (Bool-cases (literal_eq k l)) [
  | inl e ↦
      let seen =
        collect_literals-contains rows (push_literal (literal k ∷ ps) ls) l
          (push_literal-head k l ps ls e) in
      cc
  | inr e ↦ e
]

-- A literal that is not collected starts no row.
pub collect_literals-AvoidsLiteral :
    (l : SimpleLiteral) (rows : List PatternRow) (ls : List SimpleLiteral)
    → contains_literal (collect_literals rows ls) l ≡ false
    → All (AvoidsLiteral l) rows
unfolding collect_literals
collect_literals-AvoidsLiteral l [] ls h = tt
collect_literals-AvoidsLiteral l (row ∷ rows) ls h =
    (avoided_literal l row rows ls h, collect_literals-AvoidsLiteral l rows (push_literal row ls) h)
