-- ===== src/Exhaustiveness/Rebuilt.antt =====
-- Rows with a constructor put back, and the lists of rows of several alternatives.
use starstream.Prelude.{
  ℕ, zero, suc, Bool, true, false, ◌≡◌, refl, ap, arith, if◌then◌else◌, List, [], ◌∷◌, ◌++◌, length,
  All, filter_map, map, replicate, ok, >>=-returns,
}
use starstream.Types.{Ty}
use starstream.Exhaustiveness.Pattern.{
  SimplePat, wildcard, ctor, pats, simple_pats, CtorInfo, CtorSet,
}
use starstream.Exhaustiveness.Useful.{
  PatternRow, specialize_row, default_row, contains_ctor, collect_ctors,
}
use starstream.Exhaustiveness.Missing.{split_at, rebuild, missing_ctors}
use starstream.Exhaustiveness.Listed.{RowsListed, IsNamed}
use starstream.Exhaustiveness.Heads.{collect_ctors-Avoids}
use starstream.Exhaustiveness.Uncovered.{Uncovered, ctor_default-Uncovered, ctor-Uncovered}

module _ {ℓ} {A : Type ℓ} where
  split_at-append :
      (n : ℕ) (xs before after : List A)
      → split_at n xs ≡ ok (before, after)
      → (xs ≡ before ++ after) × (length before ≡ n)
  unfolding split_at
  split_at-append zero xs before after h = ground arith
  split_at-append (suc n) [] before after h = cc
  split_at-append (suc n) (x ∷ xs) before after h =
      let ((b, a), e, h') = >>=-returns (split_at n xs) _ h in
      let (q, l) = split_at-append n xs b a e in
      let qb : x ∷ b ≡ before = cc in
      let qa : a ≡ after = cc in (rw (← qb, ← qa) (ap (λ ys. x ∷ ys) q), rw (← qb) (omega arith))

  pub All-append : (P : A → Type 0) (xs ys : List A) → All P xs → All P ys → All P (xs ++ ys)
  All-append P [] ys h k = k
  All-append P (x ∷ xs) ys h k = (h.0, All-append P xs ys h.1 k)

  pub All-map :
      (P Q : A → Type 0) (f : A → A) (xs : List A)
      → ((x : A) → P x → Q (f x))
      → All P xs
      → All Q (map f xs)
  All-map P Q f [] k h = tt
  All-map P Q f (x ∷ xs) k h = (k x h.0, All-map P Q f xs k h.1)

  -- The rows of an alternative that is left out where `b` holds.
  pub All-unless :
      (P : A → Type 0) (b : Bool) (xs : List A)
      → (b ≡ false → All P xs)
      → All P (if b then [] else xs)
  All-unless P true xs h = tt
  All-unless P false xs h = h refl

pats-simple_pats : (ps : List SimplePat) → pats (simple_pats ps) ≡ ps
pats-simple_pats [] = refl
pats-simple_pats (p ∷ ps) = ap (λ qs. p ∷ qs) (pats-simple_pats ps)

module _ (rows : List PatternRow) (ty : Ty) (tys : List Ty)
    (listed : RowsListed rows (ty ∷ tys)) where
  pub rebuild-Uncovered :
      (info : CtorInfo) (missing found : List PatternRow)
      → IsNamed info.ctor ty
      → All (Uncovered (filter_map (specialize_row info.ctor info.arity) rows)) missing
      → rebuild info missing ≡ ok found
      → All (Uncovered rows) found
  unfolding rebuild
  rebuild-Uncovered info [] found o u h = let q : [] ≡ found = cc in rw (← q) tt
  rebuild-Uncovered info (row ∷ missing) found o u h =
      let ((args, after), e, h') = >>=-returns (split_at info.arity row) _ h in
      let (rest, e', h'') = >>=-returns (rebuild info missing) _ h' in
      let (q, l) = split_at-append info.arity row args after e in
      let same = pats-simple_pats args in
      let found' : (ctor info.ctor (simple_pats args) ∷ after) ∷ rest ≡ found = cc in
      rw (← found') (
        ctor-Uncovered rows ty tys listed info.ctor (simple_pats args) after o
            (rw (same, l, ← q) u.0),
        rebuild-Uncovered info missing rest o u.1 e',
      )

  pub missing_ctors-Uncovered :
      (tails : List PatternRow) (infos : CtorSet)
      → All (λ info. IsNamed info.ctor ty) infos
      → All (Uncovered (filter_map default_row rows)) tails
      → All (Uncovered rows) (missing_ctors (collect_ctors rows []) tails infos)
  unfolding missing_ctors
  missing_ctors-Uncovered tails [] o u = tt
  missing_ctors-Uncovered tails (info ∷ infos) o u =
      All-append (Uncovered rows) _ _
        (All-unless (Uncovered rows) (contains_ctor (collect_ctors rows []) info.ctor) _ (λ a.
          All-map (Uncovered (filter_map default_row rows)) (Uncovered rows) _ tails
            (λ tail t.
              ctor_default-Uncovered rows ty tys listed info.ctor
                (simple_pats (replicate info.arity wildcard)) tail o.0
                (collect_ctors-Avoids info.ctor rows [] a) t)
            u))
        (missing_ctors-Uncovered tails infos o.1 u)
