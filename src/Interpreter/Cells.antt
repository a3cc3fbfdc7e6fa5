-- ===== src/Interpreter/Cells.antt =====
-- Locals, cells and loops of a well-typed block.
use starstream.Prelude.{
  ℕ, zero, suc, String, str_eq, true, false, ◌≡◌, refl, arith, some, List, [], ◌∷◌, ◌++◌, length,
  get_elem?, Bool, none, err, panic, ok, ◌>>=◌, Bool-cases, inl, inr, if◌then◌else◌,
}
use starstream.Types.{Ty}
use starstream.TypedPattern.{Literal, TypedPattern, IsLiteral}
use starstream.Interpreter.Value.{Value, unit_value, to_bool}
use starstream.Interpreter.Eval.{
  breaks, arithmetic, out_of_fuel, when, Run, Store, Locals, cell_of, get, set, write_cell,
  insert_all, match_pattern, eval_literal, eval_name, while_loop, declare,
}
use starstream.Interpreter.Typing.{IsTest, Scope, type_of, HasKind, Binds, StoreFits, LocalsFit}
use starstream.Interpreter.Leaving.{Leaving}
use starstream.Interpreter.Sound.{Extends, Safe, Sound, >>=-Safe, to_bool-ok, if-Safe}

pub LocalsFit-Extends :
    (scope : Scope) (locals : Locals) (tys tys' : List Ty)
    → Extends tys tys'
    → LocalsFit scope locals tys
    → LocalsFit scope locals tys'
unfolding LocalsFit
LocalsFit-Extends [] [] tys tys' x h = tt
LocalsFit-Extends ((n, ty) ∷ scope) ((m, cell) ∷ locals) tys tys' x (e, c, h) =
    (e, x cell ty c, LocalsFit-Extends scope locals tys tys' x h)
LocalsFit-Extends [] (l ∷ locals) tys tys' x h = absurd h
LocalsFit-Extends (s ∷ scope) [] tys tys' x h = absurd h

cell_of-ok :
    (scope : Scope) (locals : Locals) (tys : List Ty) (name : String) (ty : Ty)
    → LocalsFit scope locals tys
    → type_of scope name ≡ some ty
    → (cell : ℕ) × (cell_of locals name ≡ ok cell) × (get_elem? tys cell ≡ some ty)
unfolding cell_of LocalsFit type_of
cell_of-ok [] locals tys name ty h e = cc
cell_of-ok (s ∷ scope) [] tys name ty h e = absurd h
cell_of-ok ((n, u) ∷ scope) ((m, cell) ∷ locals) tys name ty (q, c, h) e =
    elim (Bool-cases (str_eq n name)) [
      | inl t ↦
          let t' : str_eq m name ≡ true = rw (← q) t in
          let same : u ≡ ty = let e' = rw (t, type_of) at e in cc in
          (cell, rw (t', cell_of) refl, rw (← same) c)
      | inr t ↦
          let t' : str_eq m name ≡ false = rw (← q) t in
          let (found, f, g) = cell_of-ok scope locals tys name ty h (rw (t, type_of) at e) in
          (found, rw (t', cell_of) f, g)
    ]

cell-HasKind :
    (store : Store) (tys : List Ty) (cell : ℕ) (ty : Ty)
    → StoreFits store tys
    → get_elem? tys cell ≡ some ty
    → (v : Value) × (get_elem? store cell ≡ some v) × HasKind v ty
cell-HasKind store [] cell ty h e = cc
cell-HasKind [] (u ∷ tys) cell ty h e = absurd h
cell-HasKind (v ∷ store) (u ∷ tys) zero ty h e = let q : u ≡ ty = cc in (v, refl, rw (← q) h.0)
cell-HasKind (v ∷ store) (u ∷ tys) (suc cell) ty h e = cell-HasKind store tys cell ty h.1 e

write_cell-StoreFits :
    (store : Store) (tys : List Ty) (cell : ℕ) (ty : Ty) (v : Value)
    → StoreFits store tys
    → get_elem? tys cell ≡ some ty
    → HasKind v ty
    → StoreFits (write_cell store cell v) tys
write_cell-StoreFits store [] cell ty v h e f = cc
write_cell-StoreFits [] (u ∷ tys) cell ty v h e f = absurd h
write_cell-StoreFits (w ∷ store) (u ∷ tys) zero ty v h e f = let q : u ≡ ty = cc in (rw q f, h.1)
write_cell-StoreFits (w ∷ store) (u ∷ tys) (suc cell) ty v h e f =
    (h.0, write_cell-StoreFits store tys cell ty v h.1 e f)

get_elem?-append {ℓ} :
    {A : Type ℓ} (xs ys : List A) (i : ℕ) (a : A)
    → get_elem? xs i ≡ some a
    → get_elem? (xs ++ ys) i ≡ some a
get_elem?-append [] ys i a h = cc
get_elem?-append (x ∷ xs) ys zero a h = h
get_elem?-append (x ∷ xs) ys (suc i) a h = get_elem?-append xs ys i a h

new_cell-get_elem? :
    (store : Store) (tys : List Ty) (ty : Ty)
    → StoreFits store tys
    → get_elem? (tys ++ ty ∷ []) (length store) ≡ some ty
new_cell-get_elem? [] [] ty h = refl
new_cell-get_elem? [] (u ∷ tys) ty h = absurd h
new_cell-get_elem? (v ∷ store) [] ty h = absurd h
new_cell-get_elem? (v ∷ store) (u ∷ tys) ty h = new_cell-get_elem? store tys ty h.1

new_cell-StoreFits :
    (store : Store) (tys : List Ty) (v : Value) (ty : Ty)
    → StoreFits store tys
    → HasKind v ty
    → StoreFits (store ++ v ∷ []) (tys ++ ty ∷ [])
new_cell-StoreFits [] [] v ty h f = (f, tt)
new_cell-StoreFits [] (u ∷ tys) v ty h f = absurd h
new_cell-StoreFits (w ∷ store) [] v ty h f = absurd h
new_cell-StoreFits (w ∷ store) (u ∷ tys) v ty h f = (h.0, new_cell-StoreFits store tys v ty h.1 f)

pub eval_literal-HasKind : (l : Literal) (ty : Ty) → IsLiteral l ty → HasKind (eval_literal l) ty
unfolding eval_literal HasKind
eval_literal-HasKind (Literal.integer (some n)) (Ty.int w) h = tt
eval_literal-HasKind (Literal.boolean b) Ty.bool h = tt
eval_literal-HasKind Literal.unit_literal Ty.unit h = tt
eval_literal-HasKind l ty h = absurd (ground arith)

pub Extends-trans : (a b c : List Ty) → Extends a b → Extends b c → Extends a c
Extends-trans a b c x y cell ty e = y cell ty (x cell ty e)

module _ (M N : Type 0) where
  pub eval_name-Sound :
      (scope : Scope) (locals : Locals) (tys : List Ty) (name : String) (ty : Ty)
      → LocalsFit scope locals tys
      → type_of scope name ≡ some ty
      → Sound M N ty tys (eval_name (some name) locals)
  unfolding eval_name get
  eval_name-Sound scope locals tys name ty h e tys' store x f =
      let (cell, c, g) = cell_of-ok scope locals tys name ty h e in
      let (v, r, p) = cell-HasKind store tys' cell ty f (x cell ty g) in
      rw (c, ◌>>=◌) (rw r (tys', (λ _ _ y. y), f, p))

  pub set-Safe :
      (scope : Scope) (locals : Locals) (tys : List Ty) (name : String) (ty : Ty) (store : Store)
      (v : Value)
      → LocalsFit scope locals tys
      → type_of scope name ≡ some ty
      → StoreFits store tys
      → HasKind v ty
      → Safe M N
          (λ tys' l. LocalsFit scope l tys')
          tys
          (do s ← set locals store name v; ok (locals, s))
  unfolding set
  set-Safe scope locals tys name ty store v h e f p =
      let (cell, c, g) = cell_of-ok scope locals tys name ty h e in
      rw (c, ◌>>=◌) (tys, (λ _ _ y. y), write_cell-StoreFits store tys cell ty v f g p, h)

  -- A declaration whose pattern matches every value.
  pub declare-Safe :
      (scope after : Scope) (locals : Locals) (tys : List Ty) (p : TypedPattern) (ty : Ty)
      (store : Store) (v : Value) (otherwise : Store → Run Value)
      → LocalsFit scope locals tys
      → Binds p ty scope after
      → StoreFits store tys
      → HasKind v ty
      → Safe M N
          (λ tys' l. LocalsFit after l tys')
          tys
          (do bindings ← match_pattern p v; declare bindings locals otherwise store)
  unfolding match_pattern declare insert_all Binds LocalsFit
  declare-Safe scope after locals tys (TypedPattern.binding x) ty store v otherwise h b f p = (
    tys ++ ty ∷ [],
    (λ cell u e. get_elem?-append tys (ty ∷ []) cell u e),
    new_cell-StoreFits store tys v ty f p,
    rw b (
      refl,
      new_cell-get_elem? store tys ty f,
      LocalsFit-Extends scope locals tys (tys ++ ty ∷ [])
          (λ cell u e. get_elem?-append tys (ty ∷ []) cell u e) h,
    ),
  )
  declare-Safe scope after locals tys TypedPattern.wildcard ty store v otherwise h b f p =
      (tys, (λ _ _ y. y), f, rw b h)
  declare-Safe scope after locals tys p ty store v otherwise h b f q = absurd (ground arith)

  -- What follows the test of a condition.
  pub condition-Safe :
      {A : Type 0} (P : List Ty → A → Type 0) (tys : List Ty) (condition : Store → Run Value)
      (store : Store) (taken skipped : Store → Run A)
      → Sound M N Ty.bool tys condition
      → StoreFits store tys
      → ((tys' : List Ty) (s : Store)
          → Extends tys tys'
          → StoreFits s tys'
          → Safe M N P tys' (taken s))
      → ((tys' : List Ty) (s : Store)
          → Extends tys tys'
          → StoreFits s tys'
          → Safe M N P tys' (skipped s))
      → Safe M N P tys
          (do (c, s) ← condition store; holds ← to_bool c; if holds then taken s else skipped s)
  condition-Safe P tys condition store taken skipped h f y n =
      >>=-Safe M N (λ _ v. HasKind v Ty.bool) P tys (condition store) _ (h tys store (λ _ _ e. e) f)
        λ c s tys' x f' p.
          let (b, e) = to_bool-ok c p in
          rw (e, ◌>>=◌) (if-Safe M N P tys' b (taken s) (skipped s) (y tys' s x f') (n tys' s x f'))

  pub while_loop-Sound :
      (fuel : ℕ) (lacks : N) (tys : List Ty) (ty : Ty) (condition body : Store → Run Value)
      → Sound M N Ty.bool tys condition
      → Sound M N ty tys body
      → Sound M N Ty.unit tys (while_loop fuel condition body)
  unfolding while_loop HasKind
  while_loop-Sound zero lacks tys ty condition body c b tys' store x f = lacks
  while_loop-Sound (suc fuel) lacks tys ty condition body c b tys' store x f =
      condition-Safe (λ _ v. HasKind v Ty.unit) tys' condition store
        (λ s. body s >>= λ turn. while_loop fuel condition body turn.1) (λ s. ok (unit_value, s))
        (λ t s y g. c t s (Extends-trans tys tys' t x y) g) f
        (λ t s y g.
          >>=-Safe M N (λ _ v. HasKind v ty) (λ _ v. HasKind v Ty.unit) t (body s) _
            (b t s (Extends-trans tys tys' t x y) g)
            λ _ s' t' z g' _.
              while_loop-Sound fuel lacks tys ty condition body c b t' s'
                (Extends-trans tys t t' (Extends-trans tys tys' t x y) z) g')
        (λ t s y g. (t, (λ _ _ e. e), g, tt))

  never-Safe :
      {A : Type 0} (P : List Ty → A → Type 0) (tys : List Ty) (r : Run A)
      → Safe M N P tys r
      → Leaving r
      → Safe M N (λ _ _. ⊥) tys r
  never-Safe P tys (ok a) h n = absurd n
  never-Safe P tys (err (arithmetic e)) h n = h
  never-Safe P tys (err (breaks value store)) h n = tt
  never-Safe P tys (err out_of_fuel) h n = h
  never-Safe P tys panic h n = h

  -- A declaration whose pattern tests a value, with a block that leaves the function otherwise.
  tested-Safe :
      (scope : Scope) (locals : Locals) (tys : List Ty) (matched : Bool) (store : Store)
      (otherwise : Store → Run Value) (ty : Ty)
      → LocalsFit scope locals tys
      → StoreFits store tys
      → Safe M N (λ _ v. HasKind v ty) tys (otherwise store)
      → Leaving (otherwise store)
      → Safe M N
          (λ tys' l. LocalsFit scope l tys')
          tys
          (declare (when matched) locals otherwise store)
  unfolding declare insert_all
  tested-Safe scope locals tys true store otherwise ty h f o n = (tys, (λ _ _ y. y), f, h)
  tested-Safe scope locals tys false store otherwise ty h f o n =
      >>=-Safe M N (λ _ _. ⊥) (λ tys' l. LocalsFit scope l tys') tys (otherwise store) _
        (never-Safe (λ _ v. HasKind v ty) tys (otherwise store) o n)
        (λ _ _ _ _ _ impossible. absurd impossible)

  pub test-Safe :
      (scope : Scope) (locals : Locals) (tys : List Ty) (p : TypedPattern) (store : Store)
      (v : Value) (otherwise : Store → Run Value) (ty : Ty)
      → IsTest p
      → LocalsFit scope locals tys
      → StoreFits store tys
      → Safe M N (λ _ v'. HasKind v' ty) tys (otherwise store)
      → Leaving (otherwise store)
      → Safe M N
          (λ tys' l. LocalsFit scope l tys')
          tys
          (do bindings ← match_pattern p v; declare bindings locals otherwise store)
  unfolding match_pattern
  test-Safe scope locals tys (TypedPattern.literal (Literal.integer none)) store v otherwise ty t h
        f o n =
      tested-Safe scope locals tys false store otherwise ty h f o n
  test-Safe scope locals tys (TypedPattern.literal (Literal.integer (some i))) store v otherwise ty
        t h f o n =
      tested-Safe scope locals tys _ store otherwise ty h f o n
  test-Safe scope locals tys (TypedPattern.literal (Literal.boolean b)) store v otherwise ty t h f o
        n =
      tested-Safe scope locals tys _ store otherwise ty h f o n
  test-Safe scope locals tys (TypedPattern.literal Literal.unit_literal) store v otherwise ty t h f
        o n =
      tested-Safe scope locals tys _ store otherwise ty h f o n
  test-Safe scope locals tys p store v otherwise ty t h f o n = absurd t
