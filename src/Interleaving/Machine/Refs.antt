-- ===== src/Interleaving/Machine/Refs.antt =====
-- mocked_verifier.rs, `state_transition`: the rules that build, read and write references. Sizes
-- and offsets count words of four values.
use starstream.Prelude.{
  ℕ, suc, ◌+◌, ◌*◌, ◌^◌, not, ◌&&◌, ltb, leb, ◌==◌, if◌then◌else◌, none, some, List, [], ◌∷◌,
  length, get_elem?, set, replicate, ok, panic, ◌>>=◌, ◌>>◌, refuse, ok_or, insert, remove,
}
use starstream.Interleaving.Effects.{ProcessId, Value, Ref, nil, ref_width, Word, values, word_eq}
use starstream.Interleaving.Instance.{
  Checked, shape, building_ref_but_called_other, ref_initialization_mismatch, ref_push_not_building,
  ref_not_found, ref_push_out_of_bounds,
}
use starstream.Interleaving.State.{InterleavingState}
use starstream.Interleaving.Machine.Control.{is_some}

-- A product of `usize`, which panics past 64 bits, as it does in a build with overflow checks.
abbrev pub checked_mul : ℕ → ℕ → Checked ℕ
checked_mul a b = if ltb (a * b) (2 ^ 64) then ok (a * b) else panic

-- `vec![Value(0); n]`, which panics where the values, of eight bytes each, are more than
-- `isize::MAX` bytes.
abbrev pub zeroed : ℕ → Checked (List Value)
zeroed n = if ltb (n * 8) (2 ^ 63) then ok (replicate n nil) else panic

unfoldable pub new_ref : InterleavingState → (size : ℕ) (ret : Ref) → Checked InterleavingState
new_ref s size ret = do
  let curr = s.id_curr
  refuse (is_some (s.ref_building curr)) (building_ref_but_called_other curr)
  let new = s.ref_counter
  size_elems ← checked_mul size ref_width
  refuse (not (new == ret)) (ref_initialization_mismatch ret new)
  contents ← zeroed size_elems
  let building = if ltb 0 size then insert s.ref_building curr (new, 0, size) else s.ref_building
  ok (record s {
    ref_counter = s.ref_counter + 1;
    ref_store = insert s.ref_store new contents;
    ref_sizes = insert s.ref_sizes new size;
    ref_building = building;
  })

-- The loop of `RefPush` over the values of a word, the first of which goes to `pos`: beyond the size
-- only nil is accepted, and what lies beyond the vector is dropped.
unfoldable pub push_vals :
    (pid : ProcessId) (size pos : ℕ) → List Value → List Value → Checked (List Value)
push_vals pid size pos [] contents = ok contents
push_vals pid size pos (val ∷ vals) contents = do
  refuse (leb (size * ref_width) pos && not (val == nil)) (ref_push_out_of_bounds pid size)
  push_vals pid size (suc pos) vals (set contents pos val)

unfoldable pub ref_push : InterleavingState → (vals : Word) → Checked InterleavingState
ref_push s vals = do
  let curr = s.id_curr
  (reff, offset, size) ← ok_or (s.ref_building curr) (ref_push_not_building curr)
  contents ← ok_or (s.ref_store reff) (ref_not_found reff)
  contents ← push_vals curr size (offset * ref_width) (values vals) contents
  let closed = remove s.ref_building curr
  let building =
      if ltb (offset + 1) size then insert closed curr (reff, offset + 1, size) else closed
  ok (record s { ref_store = insert s.ref_store reff contents; ref_building = building })

-- `vec[i]` and `vec[i] = v` of a vector that may be too short.
abbrev at_or_panic : List Value → ℕ → Checked Value
at_or_panic contents i = elim (get_elem? contents i) [ none ↦ panic | some v ↦ ok v ]

abbrev set_or_panic : List Value → ℕ → Value → Checked (List Value)
set_or_panic contents i v = if ltb i (length contents) then ok (set contents i v) else panic

-- The values of the word at an offset. The slots beyond the size, which would stay nil, do not
-- arise: the offset is below the size.
unfoldable pub get_slot : List Value → (size i : ℕ) → Checked Value
get_slot contents size i = if ltb i (size * ref_width) then at_or_panic contents i else ok nil

unfoldable pub get_word : List Value → (size start : ℕ) → Checked Word
get_word contents size start = do
  v0 ← get_slot contents size start
  v1 ← get_slot contents size (start + 1)
  v2 ← get_slot contents size (start + 2)
  v3 ← get_slot contents size (start + 3)
  ok (record { w0 = v0; w1 = v1; w2 = v2; w3 = v3 })

unfoldable pub ref_get :
    InterleavingState → (reff : Ref) (offset : ℕ) (ret : Word) → Checked InterleavingState
ref_get s reff offset ret = do
  contents ← ok_or (s.ref_store reff) (ref_not_found reff)
  size ← ok_or (s.ref_sizes reff) (ref_not_found reff)
  refuse (leb size offset) (shape "RefGet out of bounds")
  val ← get_word contents size (offset * ref_width)
  refuse (not (word_eq val ret)) (shape "RefGet result mismatch")
  ok s

-- The loop of `RefWrite`.
unfoldable pub write_vals : (i : ℕ) → List Value → List Value → Checked (List Value)
write_vals i [] contents = ok contents
write_vals i (val ∷ vals) contents = do
  contents ← set_or_panic contents i val
  write_vals (suc i) vals contents

unfoldable pub ref_write :
    InterleavingState → (reff : Ref) (offset : ℕ) (vals : Word) → Checked InterleavingState
ref_write s reff offset vals = do
  contents ← ok_or (s.ref_store reff) (ref_not_found reff)
  size ← ok_or (s.ref_sizes reff) (ref_not_found reff)
  refuse (leb size offset) (shape "RefWrite out of bounds")
  contents ← write_vals (offset * ref_width) (values vals) contents
  ok (record s { ref_store = insert s.ref_store reff contents })
