-- ===== src/Exhaustiveness/Lengths.antt =====
-- The numbers of patterns in the rows that `collect_missing_patterns` puts together.
use starstream.Prelude.{
  ℕ, zero, suc, ◌+◌, Bool, ◌≡◌, refl, arith, if◌then◌else◌, List, [], ◌∷◌, length, All, map,
  replicate, ok,
}
use starstream.Matching.Pattern.{Compiled}
use starstream.Exhaustiveness.Pattern.{
  Ctor, SimplePat, wildcard, ctor, simple_pats, CtorInfo, CtorSet,
}
use starstream.Exhaustiveness.Useful.{PatternRow, Matrix, contains_ctor}
use starstream.Exhaustiveness.Missing.{split_at, rebuild, missing_ctors, collect_missing_patterns}
use starstream.Exhaustiveness.Rebuilt.{All-append, All-map, All-unless}

-- From some fuel on.
abbrev pub From : (ℕ → Type 0) → ℕ → Type 0
From P f = (k : ℕ) → P (k + f)

pub From-first : (P : ℕ → Type 0) (f g : ℕ) → From P f → From P (f + g)
From-first P f g h k = let q : k + (f + g) ≡ (k + g) + f = omega arith in rw q (h (k + g))

pub From-second : (P : ℕ → Type 0) (f g : ℕ) → From P g → From P (f + g)
From-second P f g h k = let q : k + (f + g) ≡ (k + f) + g = omega arith in rw q (h (k + f))

abbrev pub HasLength : ℕ → PatternRow → Type 0
HasLength n row = length row ≡ n

-- What `run` returns from some fuel on: rows of `n` patterns.
abbrev pub Finds : ℕ → (ℕ → Compiled (List PatternRow)) → Type 0
Finds n run =
    (f : ℕ) × (found : List PatternRow) × All (HasLength n) found
    × From (λ fuel. run fuel ≡ ok found) f

abbrev pub Ends : Matrix → ℕ → Type 0
Ends m n = Finds n (λ fuel. collect_missing_patterns fuel m n)

pub map-HasLength :
    (n : ℕ) (p : SimplePat) (rows : List PatternRow)
    → All (HasLength n) rows
    → All (HasLength (suc n)) (map (λ row. p ∷ row) rows)
map-HasLength n p rows h =
    All-map (HasLength n) (HasLength (suc n)) (λ row. p ∷ row) rows (λ row l. omega arith) h

pub unless-HasLength :
    (n : ℕ) (b : Bool) (p : SimplePat) (rows : List PatternRow)
    → All (HasLength n) rows
    → All (HasLength (suc n)) (if b then [] else map (λ row. p ∷ row) rows)
unless-HasLength n b p rows h =
    All-unless (HasLength (suc n)) b (map (λ row. p ∷ row) rows) (λ _. map-HasLength n p rows h)

pub split_at-returns {ℓ} :
    {A : Type ℓ} (n m : ℕ) (xs : List A)
    → length xs ≡ n + m
    → (before : List A) × (after : List A) × (split_at n xs ≡ ok (before, after))
      × (length after ≡ m)
unfolding split_at
split_at-returns zero m xs h = ([], xs, refl, omega arith)
split_at-returns (suc n) m [] h = absurd (omega arith)
split_at-returns (suc n) m (x ∷ xs) h =
    let (before, after, e, l) = split_at-returns n m xs (omega arith) in
    (x ∷ before, after, rw e refl, l)

pub rebuild-returns :
    (info : CtorInfo) (n : ℕ) (rows : List PatternRow)
    → All (HasLength (info.arity + n)) rows
    → (found : List PatternRow) × (rebuild info rows ≡ ok found) × All (HasLength (suc n)) found
unfolding rebuild
rebuild-returns info n [] h = ([], refl, tt)
rebuild-returns info n (row ∷ rows) h =
    let (before, after, e, l) = split_at-returns info.arity n row h.0 in
    let (rest, e', ls) = rebuild-returns info n rows h.1 in
    ((ctor info.ctor (simple_pats before) ∷ after) ∷ rest, rw (e, e') refl, (omega arith, ls))

pub missing_ctors-HasLength :
    (n : ℕ) (tails : List PatternRow) (seen : List Ctor) (infos : CtorSet)
    → All (HasLength n) tails
    → All (HasLength (suc n)) (missing_ctors seen tails infos)
unfolding missing_ctors
missing_ctors-HasLength n tails seen [] h = tt
missing_ctors-HasLength n tails seen (info ∷ infos) h =
    All-append (HasLength (suc n)) _ _
      (unless-HasLength n (contains_ctor seen info.ctor)
        (ctor info.ctor (simple_pats (replicate info.arity wildcard))) tails h)
      (missing_ctors-HasLength n tails seen infos h)
