-- ===== src/Exhaustiveness/Signature.antt =====
-- Lists of distinct constructors, and that `collect_ctors` makes one.
use starstream.Prelude.{
  suc, ◌≤◌, true, false, ◌≡◌, refl, arith, List, [], ◌∷◌, ◌++◌, length, All, Bool-cases, inl, inr,
  if◌then◌else◌,
}
use starstream.Exhaustiveness.Pattern.{Ctor, ctor_eq, wildcard, ctor, literal}
use starstream.Exhaustiveness.Useful.{PatternRow, contains_ctor, push_ctor, collect_ctors}
use starstream.Exhaustiveness.Heads.{ctor_eq_refl}
use starstream.Exhaustiveness.Constructors.{ctor_eq→eq}

unfoldable pub Distinct : List Ctor → Type 0
Distinct [] = Unit
Distinct (c ∷ cs) = (contains_ctor cs c ≡ false) × Distinct cs

-- Without the first occurrence.
remove : Ctor → List Ctor → List Ctor
remove c [] = []
remove c (d ∷ ds) = if ctor_eq d c then ds else d ∷ remove c ds

length-remove :
    (c : Ctor) (ds : List Ctor) → contains_ctor ds c ≡ true → length ds ≡ suc (length (remove c ds))
unfolding contains_ctor remove
length-remove c [] h = cc
length-remove c (d ∷ ds) h = elim (Bool-cases (ctor_eq d c)) [
  | inl e ↦ rw e (omega arith)
  | inr e ↦ let l = length-remove c ds (rw e at h) in rw e (omega arith)
]

remove-contains :
    (c b : Ctor) (ds : List Ctor)
    → contains_ctor ds b ≡ true
    → ctor_eq c b ≡ false
    → contains_ctor (remove c ds) b ≡ true
unfolding contains_ctor remove
remove-contains c b [] h n = cc
remove-contains c b (d ∷ ds) h n = elim (Bool-cases (ctor_eq d c)) [
  | inl e ↦
      let same = ctor_eq→eq d c e in let n' : ctor_eq d b ≡ false = rw same n in rw e (rw n' at h)
  | inr e ↦ elim (Bool-cases (ctor_eq d b)) [
    | inl k ↦ ground arith
    | inr k ↦ rw (e, k) (remove-contains c b ds (rw k at h) n)
  ]
]

others-contained :
    (c : Ctor) (cs ds : List Ctor)
    → contains_ctor cs c ≡ false
    → All (λ b. contains_ctor ds b ≡ true) cs
    → All (λ b. contains_ctor (remove c ds) b ≡ true) cs
unfolding contains_ctor
others-contained c [] ds n h = tt
others-contained c (b ∷ cs) ds n h = elim (Bool-cases (ctor_eq b c)) [
  | inl e ↦ absurd (ground arith)
  | inr e ↦ elim (Bool-cases (ctor_eq c b)) [
    | inl k ↦
        let same = ctor_eq→eq c b k in
        let r = ctor_eq_refl b in absurd (let e' = (rw same at e) in cc)
    | inr k ↦ (remove-contains c b ds h.0 k, others-contained c cs ds (rw e at n) h.1)
  ]
]

-- Distinct constructors that are all among `ds` are no more than these.
pub Distinct-le :
    (cs ds : List Ctor)
    → Distinct cs
    → All (λ c. contains_ctor ds c ≡ true) cs
    → length cs ≤ length ds
unfolding Distinct
Distinct-le [] ds d h = omega arith
Distinct-le (c ∷ cs) ds d h = omega (
  arith,
  length-remove c ds h.0,
  Distinct-le cs (remove c ds) d.1 (others-contained c cs ds d.0 h.1),
)

contains_ctor-append :
    (cs : List Ctor) (d c : Ctor)
    → contains_ctor cs c ≡ false
    → ctor_eq d c ≡ false
    → contains_ctor (cs ++ d ∷ []) c ≡ false
unfolding contains_ctor
contains_ctor-append [] d c h n = ground arith
contains_ctor-append (b ∷ cs) d c h n = elim (Bool-cases (ctor_eq b c)) [
  | inl e ↦ absurd (ground arith)
  | inr e ↦ rw e (contains_ctor-append cs d c (rw e at h) n)
]

Distinct-append :
    (cs : List Ctor) (d : Ctor) → Distinct cs → contains_ctor cs d ≡ false → Distinct (cs ++ d ∷ [])
unfolding Distinct contains_ctor
Distinct-append [] d k n = (refl, tt)
Distinct-append (c ∷ cs) d k n = elim (Bool-cases (ctor_eq c d)) [
  | inl e ↦ absurd (ground arith)
  | inr e ↦ elim (Bool-cases (ctor_eq d c)) [
    | inl q ↦
        let same = ctor_eq→eq d c q in
        let r = ctor_eq_refl c in absurd (let e' = (rw same at e) in cc)
    | inr q ↦ (contains_ctor-append cs d c k.0 q, Distinct-append cs d k.1 (rw e at n))
  ]
]

push_ctor-Distinct : (row : PatternRow) (cs : List Ctor) → Distinct cs → Distinct (push_ctor row cs)
push_ctor-Distinct [] cs h = h
push_ctor-Distinct (wildcard ∷ ps) cs h = h
push_ctor-Distinct (literal l ∷ ps) cs h = h
push_ctor-Distinct (ctor c args ∷ ps) cs h = elim (Bool-cases (contains_ctor cs c)) [
  | inl e ↦ rw e h
  | inr e ↦ rw e (Distinct-append cs c h e)
]

pub collect_ctors-Distinct :
    (rows : List PatternRow) (cs : List Ctor) → Distinct cs → Distinct (collect_ctors rows cs)
unfolding collect_ctors
collect_ctors-Distinct [] cs h = h
collect_ctors-Distinct (row ∷ rows) cs h =
    collect_ctors-Distinct rows (push_ctor row cs) (push_ctor-Distinct row cs h)
