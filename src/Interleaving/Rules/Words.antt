-- ===== src/Interleaving/Rules/Words.antt =====
-- Reading and writing the words of a reference as the rules have it, apart from the machine's loops.
use starstream.Prelude.{
  ℕ, zero, suc, ◌+◌, ◌*◌, ◌^◌, ◌<◌, ◌≤◌, ◌≡◌, refl, ap, arith, Bool-cases, inl, inr, some, List, [],
  ◌∷◌, ok, set, length, get_elem?, leb, ltb, not, ◌&&◌, ◌==◌, ◌∙◌, length-set, lt→ltb, true,
  >>=-returns,
}
use starstream.Interleaving.Effects.{ProcessId, Value, nil, ref_width, Word, word_eq}
use starstream.Interleaving.Machine.Refs.{push_vals, get_slot, get_word, write_vals}

-- The contents with the values from a position on, without those that lie beyond the end.
abbrev pub overwritten : ℕ → List Value → List Value → List Value
overwritten pos vals [] = []
overwritten zero [] (x ∷ xs) = x ∷ xs
overwritten zero (v ∷ vals) (x ∷ xs) = v ∷ overwritten zero vals xs
overwritten (suc pos) vals (x ∷ xs) = x ∷ overwritten pos vals xs

-- The values that lie beyond the end are nil.
abbrev pub NilBeyond : (end pos : ℕ) → List Value → Type 0
NilBeyond end pos [] = Unit
NilBeyond end pos (v ∷ vals) = (end ≤ pos → v ≡ nil) × NilBeyond end (suc pos) vals

-- A size whose values can be allocated: they are at most `isize::MAX` bytes.
abbrev pub Allocatable : ℕ → Type 0
Allocatable size = size * ref_width * 8 < 2 ^ 63

-- The four values from a position on.
abbrev pub IsWordAt : List Value → ℕ → Word → Type 0
IsWordAt contents i w =
    (get_elem? contents i ≡ some w.w0)
    × (get_elem? contents (i + 1) ≡ some w.w1)
    × (get_elem? contents (i + 2) ≡ some w.w2)
    × (get_elem? contents (i + 3) ≡ some w.w3)

overwritten-nothing : (pos : ℕ) (xs : List Value) → overwritten pos [] xs ≡ xs
overwritten-nothing pos [] = refl
overwritten-nothing zero (x ∷ xs) = refl
overwritten-nothing (suc pos) (x ∷ xs) = ap (λ ys. x ∷ ys) (overwritten-nothing pos xs)

overwritten-set :
    (pos : ℕ) (v : Value) (vals xs : List Value)
    → overwritten (suc pos) vals (set xs pos v) ≡ overwritten pos (v ∷ vals) xs
overwritten-set pos v vals [] = refl
overwritten-set zero v vals (x ∷ xs) = refl
overwritten-set (suc pos) v vals (x ∷ xs) = ap (λ ys. x ∷ ys) (overwritten-set pos v vals xs)

pub length-overwritten :
    (pos : ℕ) (vals xs : List Value) → length (overwritten pos vals xs) ≡ length xs
length-overwritten pos vals [] = refl
length-overwritten zero [] (x ∷ xs) = refl
length-overwritten zero (v ∷ vals) (x ∷ xs) = ap suc (length-overwritten zero vals xs)
length-overwritten (suc pos) vals (x ∷ xs) = ap suc (length-overwritten pos vals xs)

module _ (pid : ProcessId) (size : ℕ) where
  pub push_vals-overwritten :
      (pos : ℕ) (vals old new : List Value)
      → push_vals pid size pos vals old ≡ ok new
      → (new ≡ overwritten pos vals old) × NilBeyond (size * ref_width) pos vals
  unfolding push_vals
  push_vals-overwritten pos [] old new h = let q = overwritten-nothing pos old in (ground arith, tt)
  push_vals-overwritten pos (v ∷ vals) old new h =
      elim (Bool-cases (leb (size * ref_width) pos && not (v == nil))) [
        | inl e ↦ absurd (let h' = (rw e at h) in cc)
        | inr e ↦
            let (same, beyond) =
              push_vals-overwritten (suc pos) vals (set old pos v) new (rw e at h) in
            (same ∙ overwritten-set pos v vals old, ((λ le. ground arith), beyond))
      ]

  pub overwritten-push_vals :
      (pos : ℕ) (vals old : List Value)
      → NilBeyond (size * ref_width) pos vals
      → push_vals pid size pos vals old ≡ ok (overwritten pos vals old)
  unfolding push_vals
  overwritten-push_vals pos [] old h = rw (overwritten-nothing pos old)
  overwritten-push_vals pos (v ∷ vals) old h =
      elim (Bool-cases (leb (size * ref_width) pos && not (v == nil))) [
        | inl e ↦ absurd (let n = h.0 (ground arith) in ground arith)
        | inr e ↦
            rw (e, ← overwritten-set pos v vals old)
              (overwritten-push_vals (suc pos) vals (set old pos v) h.1)
      ]

pub write_vals-overwritten :
    (i : ℕ) (vals old new : List Value)
    → write_vals i vals old ≡ ok new
    → new ≡ overwritten i vals old
unfolding write_vals
write_vals-overwritten i [] old new h = let q = overwritten-nothing i old in ground arith
write_vals-overwritten i (v ∷ vals) old new h = elim (Bool-cases (ltb i (length old))) [
  | inl e ↦
      write_vals-overwritten (suc i) vals (set old i v) new (rw e at h)
      ∙ overwritten-set i v vals old
  | inr e ↦ absurd (let h' = (rw e at h) in cc)
]

pub write_vals-within :
    (i : ℕ) (v : Value) (vals old new : List Value)
    → write_vals i (v ∷ vals) old ≡ ok new
    → i + length vals < length old
unfolding write_vals
write_vals-within i v [] old new h = ground arith
write_vals-within i v (w ∷ vals) old new h = elim (Bool-cases (ltb i (length old))) [
  | inl e ↦
      let l = write_vals-within (suc i) w vals (set old i v) new (rw e at h) in
      omega (arith, l, length-set old i v)
  | inr e ↦ absurd (let h' = (rw e at h) in cc)
]

pub overwritten-write_vals :
    (i : ℕ) (vals old : List Value)
    → i + length vals ≤ length old
    → write_vals i vals old ≡ ok (overwritten i vals old)
unfolding write_vals
overwritten-write_vals i [] old h = rw (overwritten-nothing i old)
overwritten-write_vals i (v ∷ vals) old h =
    let l : ltb i (length old) ≡ true = lt→ltb i (length old) (omega arith) in
    rw (l, ← overwritten-set i v vals old)
      (overwritten-write_vals (suc i) vals (set old i v) (omega (arith, length-set old i v)))

get_slot-elem :
    (contents : List Value) (size i : ℕ) (v : Value)
    → i < size * ref_width
    → get_slot contents size i ≡ ok v
    → get_elem? contents i ≡ some v
unfolding get_slot
get_slot-elem contents size i v lt h = ground arith

pub get_word-IsWordAt :
    (contents : List Value) (size start : ℕ) (w : Word)
    → start + 4 ≤ size * ref_width
    → get_word contents size start ≡ ok w
    → IsWordAt contents start w
unfolding get_word
get_word-IsWordAt contents size start w le h =
    let (v0, e0, h₁) = >>=-returns (get_slot contents size start) _ h in
    let (v1, e1, h₂) = >>=-returns (get_slot contents size (start + 1)) _ h₁ in
    let (v2, e2, h₃) = >>=-returns (get_slot contents size (start + 2)) _ h₂ in
    let (v3, e3, h₄) = >>=-returns (get_slot contents size (start + 3)) _ h₃ in
    let same : w ≡ record { w0 = v0; w1 = v1; w2 = v2; w3 = v3 } = cc in
    rw same (
      get_slot-elem contents size start v0 (omega arith) e0,
      get_slot-elem contents size (start + 1) v1 (omega arith) e1,
      get_slot-elem contents size (start + 2) v2 (omega arith) e2,
      get_slot-elem contents size (start + 3) v3 (omega arith) e3,
    )

pub get_word-at :
    (contents : List Value) (size start : ℕ) (w : Word)
    → IsWordAt contents start w
    → start + 4 ≤ size * ref_width
    → get_word contents size start ≡ ok w
unfolding get_word get_slot
get_word-at contents size start w h le = ground arith

pub word_eq_refl : (w : Word) → word_eq w w ≡ true
word_eq_refl w = ground arith
