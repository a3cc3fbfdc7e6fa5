-- ===== src/Abi/Tests.antt =====
-- The encoding of host calls in the Goldilocks field.
use starstream.Prelude.{ℕ, ◌%◌, ◌<◌, ◌≡◌, refl, [], ◌∷◌, arith}
use starstream.Abi.Operation.{LedgerOperation, ref_get}
use starstream.Abi.Args.{opcode_args}
use starstream.Abi.Injective.{encoding-injective}

abbrev goldilocks : ℕ → ℕ
goldilocks n = n % 18446744069414584321

small_numbers : (a b : ℕ) → a < 21 → b < 21 → goldilocks a ≡ goldilocks b → a ≡ b
small_numbers a b la lb h = omega arith

abbrev read_word : LedgerOperation ℕ
read_word = ref_get 7 1 (record { x0 = 3; x1 = 4; x2 = 5; x3 = 6 })

-- The slots 1 and 3 hold the reference and the offset.
read_word_args : opcode_args 0 goldilocks read_word ≡ 3 ∷ 7 ∷ 4 ∷ 1 ∷ 5 ∷ 6 ∷ 0 ∷ []
unfolding opcode_args
read_word_args = refl

encoding-injective_example : read_word ≡ read_word
encoding-injective_example =
    encoding-injective 0 goldilocks small_numbers read_word read_word (λ e. cc) (λ e. cc) refl refl
