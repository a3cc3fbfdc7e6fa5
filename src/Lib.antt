-- ===== src/Lib.antt =====
-- Starstream: a verification of the parts of the program that decide whether a transaction is
-- valid.
--
-- A Starstream transaction runs coordination scripts and UTXOs as processes that hand control to
-- each other by host calls. The crate interleaving/starstream-interleaving-spec-legacy defines
-- what such a run may do. Its `verify_interleaving_semantics` replays the host calls recorded for
-- each process against an instance of public data, and accepts or refuses the transaction.
--
-- Which file models which part:
--
--   Prelude: shared names, Boolean tests on numbers, results with a panic (Results), lists over
--     the native numbers (Lists), and vectors whose index may be out of range (Arrays).
--   Interleaving.Effects: transaction_effects/witness.rs (WitLedgerEffect) and
--     transaction_effects/mod.rs, with `Hash`, `Value` and `Ref` of lib.rs. A hash is a number,
--     since hashes are only compared.
--   Interleaving.Instance: transaction_effects/instance.rs (InterleavingInstance, check_shape)
--     and the error type of mocked_verifier.rs.
--   Interleaving.State: `Rom` and `InterleavingState` of mocked_verifier.rs. The maps from
--     references and processes are functions into Option.
--   Interleaving.Machine: `state_transition` of mocked_verifier.rs, with one function per host
--     call: Machine.Control (Resume, Yield, Return, CallEffectHandler, Enter, Activation, Init),
--     Machine.Spawn (ProgramHash, NewUtxo, NewToken, NewCoord and the handlers), Machine.Refs
--     (NewRef, RefPush, RefGet, RefWrite), Machine.Ownership (Burn, Bind, Unbind).
--   Interleaving.Verify: `verify_interleaving_semantics` of mocked_verifier.rs.
--   Interleaving.Rules: the semantics as a relation between states, one rule per host call,
--     after EFFECTS_REFERENCE.md but for its bound on the size of NewRef and its ban on a handler
--     that calls itself, which the code does not check, with the proof that the machine takes only
--     its steps. Interleaving.Transition: a round of the loop as a relation.
--   Interleaving.Invariant: invariants of the state and that each rule keeps them.
--     Interleaving.Safety: which host calls cannot panic, and that the machine takes every step of
--     the relation.
--   Interleaving.Run: the loop ends, it is sound and complete for sequences of rounds, and what
--     the verdict means.
--   Interleaving.Accounts, Protocol, Build, Unread, Divergence: consequences for burned inputs
--     and owners, for a call and its answer, for building and reading references, for host calls
--     that are never read, and host calls that panic.
--
-- The crate's lib.rs has the ledger that applies such transactions: `apply_transaction` makes an
-- instance and traces of a transaction, has them checked, and then moves outputs, numbers and
-- owners.
--
--   Ledger.State: the states, identities, transactions, errors and the ledger itself.
--     Ledger.Proofs: `ZkTransactionProof::verify` and `ZkWasmProof::verify`. A folded proof is a
--     parameter, what the third-party verifier says of it.
--   Ledger.Artifacts: `interleaving_artifacts`, `input_ownership_for_inputs` and
--     `verify_witness`. Ledger.Apply: `apply_transaction` with its loops.
--   Ledger.Instances: the instances of the ledger are well-formed. Ledger.Accepts: what has been
--     checked of an applied transaction. Ledger.Valid (and Valid.Loops), Spending, Spent, Created,
--     Shared: the numbering, what stays, what leaves and what enters. Ledger.Unproven: outputs
--     without a proof.
--
-- For the commitment to a trace, a host call is written as a number and seven field elements. The
-- field is third-party, and a parameter.
--
--   Abi.Discriminant: `EffectDiscriminant` of transaction_effects/witness.rs. Abi.Operation:
--     ledger_operation.rs and optional.rs of interleaving/starstream-interleaving-proof-legacy.
--     Abi.Args: transaction_effects/abi.rs, and `opcode_discriminant` and `opcode_args` of the
--     proof crate's abi.rs. Abi.Injective: that the writing loses nothing.
--
-- The compiler checks that the arms of a match cover its type, and the code generator compiles
-- the arms to a decision tree. Both lower the same typed patterns to patterns of their own, and
-- the theorems connect the two.
--
--   Types and TypedPattern: starstream-types/src/types.rs and typed_ast.rs, as far as pattern
--     matching looks into them, and what type inference guarantees of a pattern (`PatternFits`).
--   Matching: starstream-to-wasm/src/decision_tree.rs. Matching.Pattern: its types.
--     Matching.Compile: `compile` with `specialize`, `default_matrix`, `select_column`,
--     `head_constructors` and `is_complete_signature`. Matching.Lower: `lower_pattern` of
--     starstream-to-wasm/src/lib.rs. Matching.Meaning: values, the first row that matches, and the
--     run of a tree, which states what `emit_decision_tree` makes of it but for the cast of the
--     literals to 64 or 32 bits.
--   Matching.Columns, Slices, Decompose, Branches, Selection, Chosen, Switch, Correct, Bindings:
--     from the columns of a row to the tree of a matrix, and the variables that a leaf binds.
--   Exhaustiveness: starstream-compiler/src/typecheck/exhaustiveness.rs. Exhaustiveness.Pattern:
--     its types and `CtorSet`. Exhaustiveness.Useful: `Matrix` and `is_useful`.
--     Exhaustiveness.Missing: `collect_missing_patterns`. Exhaustiveness.Lower: `lower_pattern`.
--     Exhaustiveness.Check: `check_match` and `missing_patterns`. Exhaustiveness.Meaning: the
--     values that a pattern covers.
--   Exhaustiveness.Constructors, Rows, Booleans, Parts, Sound: from the constructors of a type
--     to what a useless pattern covers. Exhaustiveness.Size, Fuel, Ends: the recursion ends.
--     Exhaustiveness.Asserting: `is_useful` with the debug assertions of `Matrix::push`.
--     Exhaustiveness.Agreed, Agree, Total, Unreachable: the two lowerings, accepted matches, and
--     the arms that are reported as unreachable. Exhaustiveness.Listed, Heads, Passing, Narrow,
--     Uncovered, Rebuilt, FirstColumn, Examples, Lengths, Found, Signature, Counts, Empty, Silent,
--     Shown: the examples of `collect_missing_patterns`. Exhaustiveness.UnitLiteral: the pattern
--     `()`.
--
-- The interpreter walks typed blocks apart from the compiled code.
--
--   Interpreter: starstream-interpreter/src/lib.rs. Interpreter.Integer: `i64` arithmetic, where
--     the build's overflow checks are an argument. Interpreter.Value: `Value` and its operators.
--     Interpreter.Syntax: the blocks, statements and expressions of starstream-
--     types/src/typed_ast.rs. Interpreter.Eval: `eval`, `eval_block`, `match_pattern` and
--     `Locals`, whose shared cells are a store; `?` passes on a `Stop`, which also tells the
--     panics of arithmetic from those that the source writes out.
--   Interpreter.Wrapping, Floor, Division: floor division. Interpreter.Typing: the blocks that
--     type inference lets through, as far as the interpreter implements them. Interpreter.Sound,
--     Faults, Operators, Leaving, Cells, Safe: the evaluation of such blocks. The interpreter
--     keeps an i64 for each integer type, so a value is said to have the kind of its type
--     (`HasKind`): a number for an integer type, whatever the width.
--
-- Results of fallible code are `ok`, `err` with the source's error, or `panic` where the source
-- indexes out of range. The loop of the checker runs on fuel: one unit more than the number of
-- all host calls, which is enough since each round uses up one of them. Numbers are natural
-- numbers; the source's usize counters are below the length of the traces, and no arithmetic on
-- them can overflow before memory runs out. The fuel of `compile`, `is_useful` and
-- `collect_missing_patterns` bounds the depth of their recursion: for `compile` one more than the
-- number of constructors in the matrix is enough, for `is_useful` and `collect_missing_patterns`
-- some fuel is. The size of a new reference is a usize too: NewRef multiplies it as a build with
-- overflow checks does, and panics where the contents pass `isize::MAX` bytes; that memory runs
-- out before is not modelled. The debug assertion of `Matrix::push` is modelled for `is_useful`,
-- in Exhaustiveness.Asserting; elsewhere a build without debug assertions is meant. The
-- interpreter is structural but for its `while` loops, which take fuel, since a program may run
-- forever. The nonce counters of the ledger are u64, and panic at their end as in a build with
-- overflow checks. A transaction is well-formed in the sense of `WellFormed` when the process
-- table covers the processes, UTXOs come before scripts, and the owners at the start are inputs;
-- `check_shape` does not look at these points, and the ledger's way of building an instance gives
-- them.
--
-- Not modelled: the hash of the commitment, the circuits and the folding of
-- interleaving/starstream-interleaving-proof-legacy, which are built on third-party constraint
-- systems; the parser, which consists of combinators of a third-party library; the text and the
-- spans of the messages of the exhaustiveness check; type inference, whose result for a pattern
-- is a hypothesis; services, command lines, editors and web pages, which are input and output.
pub mod Prelude
pub mod Interleaving
pub mod Ledger
pub mod Abi
pub mod Types
pub mod Matching
pub mod Exhaustiveness
pub mod Interpreter
pub mod TypedPattern
