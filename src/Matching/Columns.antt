-- ===== src/Matching/Columns.antt =====
-- A column taken out of a row, out of the values and out of the types at once.
use starstream.Prelude.{
  ℕ, zero, suc, ◌+◌, ◌<◌, ◌≡◌, ◌&&◌, refl, ap, arith, List, [], ◌∷◌, ◌++◌, length, ok, >>=-returns,
  Forall2,
}
use starstream.Matching.Pattern.{Pat}
use starstream.Matching.Compile.{focus}
use starstream.Matching.Meaning.{Val, matches, match_row, size, size_row}

module _ {ℓ} {A : Type ℓ} where
  pub focus-lt :
      (xs : List A) (i : ℕ) → i < length xs → (y : List A × A × List A) × (focus xs i ≡ ok y)
  unfolding focus
  focus-lt [] i h = elim h [ ]
  focus-lt (x ∷ xs) zero h = (([], x, xs), refl)
  focus-lt (x ∷ xs) (suc i) h =
      let ((b, y, a), e) = focus-lt xs i (omega arith) in ((x ∷ b, y, a), rw e)

  -- What a focus on the tail says of a focus on the whole list.
  focus-suc :
      (x : A) (xs : List A) (i : ℕ) {b a : List A} {y : A}
      → focus (x ∷ xs) (suc i) ≡ ok (b, y, a)
      → (b' : List A) × (focus xs i ≡ ok (b', y, a)) × (b ≡ x ∷ b')
  unfolding focus
  focus-suc x xs i h =
      let ((b', y', a'), e, f) = >>=-returns (focus xs i) _ h in (b', ground arith, ground arith)

  pub length-focus :
      (xs : List A) (i : ℕ) {b a : List A} {y : A} → focus xs i ≡ ok (b, y, a) → length b ≡ i
  unfolding focus
  length-focus [] i h = ground arith
  length-focus (x ∷ xs) zero h = ground arith
  length-focus (x ∷ xs) (suc i) h =
      let (b', e, f) = focus-suc x xs i h in rw f (ap suc (length-focus xs i e))

module _ {ℓ κ} {A : Type ℓ} {B : Type κ} (R : A → B → Type 0) where
  -- A column of the types is a column of what has these types.
  pub Forall2-focus :
      (xs : List A) (ys : List B) (i : ℕ) {yb ya : List B} {y : B}
      → Forall2 R xs ys
      → focus ys i ≡ ok (yb, y, ya)
      → (xb : List A) × (x : A) × (xa : List A) × (focus xs i ≡ ok (xb, x, xa))
        × Forall2 R xb yb
        × R x y
        × Forall2 R xa ya
  unfolding focus
  Forall2-focus xs [] i h e = cc
  Forall2-focus [] (y ∷ ys) i h e = elim h [ ]
  Forall2-focus (x ∷ xs) (y ∷ ys) zero {yb = yb} {ya = ya} {y = y'} h e =
      let eb : yb ≡ [] = cc in
      let ey : y' ≡ y = cc in
      let ea : ya ≡ ys = cc in ([], x, xs, refl, rw eb tt, rw ey h.0, rw ea h.1)
  Forall2-focus (x ∷ xs) (y ∷ ys) (suc i) h e =
      let (b', e', f) = focus-suc y ys i e in
      let (xb, x', xa, g, hb, hx, ha) = Forall2-focus xs ys i h.1 e' in
      (x ∷ xb, x', xa, rw g, rw f (h.0, hb), hx, ha)

  pub length-Forall2 : (xs : List A) (ys : List B) → Forall2 R xs ys → length xs ≡ length ys
  length-Forall2 [] [] h = refl
  length-Forall2 [] (y ∷ ys) h = elim h [ ]
  length-Forall2 (x ∷ xs) [] h = elim h [ ]
  length-Forall2 (x ∷ xs) (y ∷ ys) h = ap suc (length-Forall2 xs ys h.1)

pub match_row-append :
    (ps qs : List Pat) (vs ws : List Val)
    → length ps ≡ length vs
    → match_row (ps ++ qs) (vs ++ ws) ≡ (match_row ps vs && match_row qs ws)
unfolding match_row
match_row-append [] qs [] ws h = refl
match_row-append [] qs (v ∷ vs) ws h = absurd (omega arith)
match_row-append (p ∷ ps) qs [] ws h = absurd (omega arith)
match_row-append (p ∷ ps) qs (v ∷ vs) ws h =
    ground (arith, match_row-append ps qs vs ws (omega arith))

-- A row matches when its column does, and the columns on both sides.
pub match_row-focus :
    (ps : List Pat) (vs : List Val) (i : ℕ) {b a : List Pat} {p : Pat} {b' a' : List Val} {v : Val}
    → focus ps i ≡ ok (b, p, a)
    → focus vs i ≡ ok (b', v, a')
    → match_row ps vs ≡ (match_row b b' && (matches p v && match_row a a'))
unfolding match_row focus
match_row-focus [] vs i e f = ground arith
match_row-focus (p ∷ ps) [] i e f = ground arith
match_row-focus (p ∷ ps) (v ∷ vs) zero e f = ground arith
match_row-focus (p ∷ ps) (v ∷ vs) (suc i) e f =
    let (b, e', g) = focus-suc p ps i e in
    let (b', f', g') = focus-suc v vs i f in ground (arith, match_row-focus ps vs i e' f')

pub size_row-append : (ps qs : List Pat) → size_row (ps ++ qs) ≡ size_row ps + size_row qs
unfolding size_row
size_row-append [] qs = omega arith
size_row-append (p ∷ ps) qs = omega (arith, size_row-append ps qs)

pub size_row-focus :
    (ps : List Pat) (i : ℕ) {b a : List Pat} {p : Pat}
    → focus ps i ≡ ok (b, p, a)
    → size_row ps ≡ size_row b + (size p + size_row a)
unfolding size_row focus
size_row-focus [] i e = ground arith
size_row-focus (p ∷ ps) zero e = ground arith
size_row-focus (p ∷ ps) (suc i) e =
    let (b, e', g) = focus-suc p ps i e in ground (arith, size_row-focus ps i e')
