-- ===== src/Interleaving/Safety/Reads.antt =====
-- The loops over a word stay inside contents of the announced size.
use starstream.Prelude.{
  ℕ, suc, ◌+◌, ◌≤◌, ◌<◌, ◌≢◌, List, [], ◌∷◌, length, set, panic, arith, length-set, get_elem?-lt,
}
use starstream.Interleaving.Effects.{ProcessId, Value}
use starstream.Interleaving.Machine.Refs.{push_vals, get_slot, get_word, write_vals}

pub push_vals-ne-panic :
    (pid : ProcessId) (size pos : ℕ) (vals old : List Value)
    → push_vals pid size pos vals old ≢ panic
unfolding push_vals
push_vals-ne-panic pid size pos [] old h = cc
push_vals-ne-panic pid size pos (v ∷ vs) old h =
    ground (arith, push_vals-ne-panic pid size (suc pos) vs (set old pos v))

pub write_vals-ne-panic :
    (i : ℕ) (vals old : List Value) → i + length vals ≤ length old → write_vals i vals old ≢ panic
unfolding write_vals
write_vals-ne-panic i [] old le h = cc
write_vals-ne-panic i (v ∷ vs) old le h =
    ground (arith, write_vals-ne-panic (suc i) vs (set old i v), length-set old i v)

get_slot-ne-panic :
    (contents : List Value) (size i : ℕ) → i < length contents → get_slot contents size i ≢ panic
unfolding get_slot
get_slot-ne-panic contents size i lt h = let (v, e) = get_elem?-lt contents i lt in ground arith

pub get_word-ne-panic :
    (contents : List Value) (size start : ℕ)
    → start + 4 ≤ length contents
    → get_word contents size start ≢ panic
unfolding get_word
get_word-ne-panic contents size start le h = ground (
  arith,
  get_slot-ne-panic contents size start,
  get_slot-ne-panic contents size (start + 1),
  get_slot-ne-panic contents size (start + 2),
  get_slot-ne-panic contents size (start + 3),
)
