-- ===== src/Interleaving/Build/Lists.antt =====
-- Words laid out one after another, and the loops over them.
use starstream.Prelude.{
  ℕ, zero, suc, ◌+◌, ◌*◌, ◌≤◌, ◌<◌, ◌≡◌, refl, ◌∙◌, ap, some, false, leb, List, [], ◌∷◌, ◌++◌,
  length, get_elem?, set, replicate, ok, arith, length-append,
}
use mathlib.Core.List.{append_assoc}
use Prim.Native.Nat.add
use starstream.Interleaving.Effects.{ProcessId, Value, nil, ref_width, Word}
use starstream.Interleaving.Machine.Refs.{push_vals}
use starstream.Interleaving.Rules.Words.{IsWordAt}

abbrev pub contents_of : List Word → List Value
contents_of [] = []
contents_of (w ∷ ws) = w.w0 ∷ w.w1 ∷ w.w2 ∷ w.w3 ∷ contents_of ws

pub length-contents_of : (ws : List Word) → length (contents_of ws) ≡ length ws * ref_width
length-contents_of [] = omega arith
length-contents_of (w ∷ ws) = omega (arith, length-contents_of ws)

set_middle :
    (xs : List Value) (v w : Value) (rest : List Value)
    → set (xs ++ v ∷ rest) (length xs) w ≡ xs ++ w ∷ rest
set_middle [] v w rest = refl
set_middle (x ∷ xs) v w rest = ap (◌∷◌ x) (set_middle xs v w rest)

leb-false : (a b : ℕ) → b < a → leb a b ≡ false
leb-false a b h = ground arith

length-snoc : (xs : List Value) (v : Value) → length (xs ++ v ∷ []) ≡ suc (length xs)
length-snoc xs v = omega (arith, length-append xs (v ∷ []))

pub push_vals-fill :
    (pid : ProcessId) (size : ℕ) (xs vs : List Value) (k : ℕ)
    → length xs + length vs ≤ size * ref_width
    → push_vals pid size (length xs) vs (xs ++ replicate (length vs + k) nil)
      ≡ ok (xs ++ (vs ++ replicate k nil))
unfolding push_vals
push_vals-fill pid size xs [] k le = rw add.zero
push_vals-fill pid size xs (v ∷ vs) k le =
    rw
      (
        leb-false (size * ref_width) (length xs) (omega arith),
        add.suc (length vs) k,
        set_middle xs nil v (replicate (length vs + k) nil),
        ← length-snoc xs v,
        ← append_assoc xs (v ∷ []) (replicate (length vs + k) nil),
      )
      (push_vals-fill pid size (xs ++ v ∷ []) vs k (omega (arith, length-snoc xs v))
        ∙ ap ok (append_assoc xs (v ∷ []) (vs ++ replicate k nil)))

pub get_elem?-word :
    (ws : List Word) (i : ℕ) (w : Word)
    → get_elem? ws i ≡ some w
    → IsWordAt (contents_of ws) (i * ref_width) w
get_elem?-word [] i w h = cc
get_elem?-word (x ∷ ws) zero w h = ground arith
get_elem?-word (x ∷ ws) (suc i) w h =
    let (p0, p1, p2, p3) = get_elem?-word ws i w h in
    let shift : (j : ℕ) → suc i * ref_width + j ≡ suc (suc (suc (suc (i * ref_width + j)))) =
      λ j. omega arith in
    let start : suc i * ref_width ≡ suc (suc (suc (suc (i * ref_width)))) = omega arith in
    (rw start p0, rw (shift 1) p1, rw (shift 2) p2, rw (shift 3) p3)
