-- ===== src/Prelude/Arrays.antt =====
-- A Rust `Vec` of fixed length, seen as its length and what stands at each index, and a `HashMap`,
-- seen as what it gives at each key. No operation looks at an index beyond the length.
use Prim.Native.Nat.{ℕ}
use mathlib.Core.List.{List}
use mathlib.Core.Option.{Option, none, some}
use starstream.Prelude.Tests.{ltb, ◌==◌, if◌then◌else◌}
use starstream.Prelude.Lists.{length, get_elem?}
use starstream.Prelude.Results.{Outcome, ok, panic}

pub record Array {ℓ} (A : Type ℓ) : Type ℓ where
  pub len : ℕ
  pub at : ℕ → A

module _ {ℓ} {A : Type ℓ} where
  -- `vec![a; n]`
  abbrev pub filled : ℕ → A → Array A
  filled n a = record { len = n; at = λ _. a }

  -- The elements of a list; the default is never read.
  abbrev pub from_list : A → List A → Array A
  from_list d xs = record {
    len = length xs;
    at = λ i. elim (get_elem? xs i) [ none ↦ d | some a ↦ a ];
  }

  -- `v[i]`, which panics out of range.
  abbrev pub read {κ} : {E : Type κ} → Array A → ℕ → Outcome E A
  read v i = if ltb i v.len then ok (v.at i) else panic

  -- `v.get(i)`
  abbrev pub get? : Array A → ℕ → Option A
  get? v i = if ltb i v.len then some (v.at i) else none

  -- The array with another element at an index.
  abbrev pub put : Array A → ℕ → A → Array A
  put v i a = record v { at = λ j. if i == j then a else v.at j }

  -- `v[i] = a`, which panics out of range.
  abbrev pub write {κ} : {E : Type κ} → Array A → ℕ → A → Outcome E (Array A)
  write v i a = if ltb i v.len then ok (put v i a) else panic

  -- `map.insert(k, a)` and `map.remove(k)`
  abbrev pub insert : (ℕ → Option A) → ℕ → A → ℕ → Option A
  insert m k a j = if k == j then some a else m j

  abbrev pub remove : (ℕ → Option A) → ℕ → ℕ → Option A
  remove m k j = if k == j then none else m j
