-- ===== src/Exhaustiveness/Empty.antt =====
-- When lists of rows that are put together are empty.
use starstream.Prelude.{
  ℕ, zero, suc, ◌+◌, ◌<◌, ◌≤◌, ◌==◌, ltb, Bool, true, false, ◌≡◌, refl, ap, arith, if◌then◌else◌,
  List, [], ◌∷◌, ◌++◌, All, map, replicate, ok, err, panic, >>=-returns, Bool-cases, inl, inr,
}
use starstream.Matching.Pattern.{Compiled}
use starstream.Exhaustiveness.Pattern.{CtorInfo, CtorSet, Ctor}
use starstream.Exhaustiveness.Useful.{PatternRow, contains_ctor, either}
use starstream.Exhaustiveness.Missing.{split_at, rebuild, missing_ctors}

pub map-empty {ℓ κ} : {A : Type ℓ} {B : Type κ} (f : A → B) (xs : List A) → map f xs ≡ [] → xs ≡ []
map-empty f [] h = refl
map-empty f (x ∷ xs) h = cc

pub append-empty {ℓ} : {A : Type ℓ} (xs ys : List A) → xs ++ ys ≡ [] → (xs ≡ []) × (ys ≡ [])
append-empty [] ys h = (refl, h)
append-empty (x ∷ xs) ys h = cc

pub unless-empty :
    (b : Bool) (f : PatternRow → PatternRow) (tails : List PatternRow)
    → b ≡ false
    → (if b then [] else map f tails) ≡ []
    → tails ≡ []
unless-empty b f tails e h = map-empty f tails (rw e at h)

pub rebuild-empty :
    (info : CtorInfo) (rows : List PatternRow) → rebuild info rows ≡ ok [] → rows ≡ []
unfolding rebuild
rebuild-empty info [] h = refl
rebuild-empty info (row ∷ rows) h =
    let ((args, after), e, h₁) = >>=-returns (split_at info.arity row) _ h in
    let (rest, e', h₂) = >>=-returns (rebuild info rows) _ h₁ in cc

pub missing_ctors-empty :
    (seen : List Ctor) (tail : PatternRow) (tails : List PatternRow) (infos : CtorSet)
    → missing_ctors seen (tail ∷ tails) infos ≡ []
    → All (λ info. contains_ctor seen info.ctor ≡ true) infos
unfolding missing_ctors
missing_ctors-empty seen tail tails [] h = tt
missing_ctors-empty seen tail tails (info ∷ infos) h =
    let (first, rest) = append-empty _ (missing_ctors seen (tail ∷ tails) infos) h in
    elim (Bool-cases (contains_ctor seen info.ctor)) [
      | inl e ↦ (e, missing_ctors-empty seen tail tails infos rest)
      | inr e ↦ absurd (let h' = (rw e at first) in cc)
    ]

pub either-false :
    (a c : Compiled Bool) (b : Bool)
    → ((x : Bool) → a ≡ ok x → x ≡ false)
    → ((x : Bool) → c ≡ ok x → x ≡ false)
    → either a c ≡ ok b
    → b ≡ false
either-false (ok true) c b h h' e = absurd (let z = h true refl in cc)
either-false (ok false) c b h h' e = h' b e
either-false (err x) c b h h' e = cc
either-false panic c b h h' e = cc

pub replicate-append {ℓ} :
    {A : Type ℓ} (n m : ℕ) (a : A) → replicate n a ++ replicate m a ≡ replicate (n + m) a
replicate-append zero m a = let q : 0 + m ≡ m = omega arith in rw q
replicate-append (suc n) m a =
    let q : suc n + m ≡ suc (n + m) = omega arith in
    rw q (ap (λ xs. a ∷ xs) (replicate-append n m a))

pub unequal : (a b : ℕ) → a < b → (a == b) ≡ false
unequal a b h = ground arith

pub full : (a b : ℕ) → a ≤ b → ltb a b ≡ false → (a == b) ≡ true
full a b h k = ground arith
