-- ===== src/Interpreter/Sound.antt =====
-- What it means that a block does not panic but in arithmetic, and how that composes.
use starstream.Prelude.{
  ℕ, Bool, true, false, ◌≡◌, refl, arith, some, List, get_elem?, Outcome, ok, err, panic, ◌>>=◌,
  if◌then◌else◌,
}
use starstream.Types.{Ty}
use starstream.Interpreter.Value.{Value, boolean, to_bool}
use starstream.Interpreter.Eval.{Stop, breaks, arithmetic, out_of_fuel, Run, Store}
use starstream.Interpreter.Typing.{HasKind, StoreFits}

-- Cells are added and keep their types.
abbrev pub Extends : List Ty → List Ty → Type 0
Extends tys tys' =
    (cell : ℕ) (ty : Ty) → get_elem? tys cell ≡ some ty → get_elem? tys' cell ≡ some ty

pub to_bool-ok : (v : Value) → HasKind v Ty.bool → (b : Bool) × (to_bool {E = Stop} v ≡ ok b)
unfolding HasKind to_bool
to_bool-ok (boolean b) h = (b, refl)
to_bool-ok v h = absurd (ground arith)

-- `M` is what holds where arithmetic may panic, and `N` where a loop may lack fuel.
module _ (M N : Type 0) where
  -- No panic but in arithmetic, where it may fault, and a result as described, with the cells' types.
  abbrev pub Safe : {A : Type 0} → (List Ty → A → Type 0) → List Ty → Run A → Type 0
  Safe P tys (ok (a, store)) = (tys' : List Ty) × Extends tys tys' × StoreFits store tys' × P tys' a
  Safe P tys (err (arithmetic e)) = M
  Safe P tys (err out_of_fuel) = N
  Safe P tys (err (breaks value store)) = Unit
  Safe P tys panic = ⊥

  Safe-weaken :
      {A : Type 0} (P : List Ty → A → Type 0) (tys tys' : List Ty) (r : Run A)
      → Extends tys tys'
      → Safe P tys' r
      → Safe P tys r
  Safe-weaken P tys tys' (ok (a, store)) x (tys'', y, f, p) =
      (tys'', (λ cell ty e. y cell ty (x cell ty e)), f, p)
  Safe-weaken P tys tys' (err (arithmetic e)) x h = h
  Safe-weaken P tys tys' (err (breaks value store)) x h = tt
  Safe-weaken P tys tys' (err out_of_fuel) x h = h
  Safe-weaken P tys tys' panic x h = h

  pub >>=-Safe :
      {A B : Type 0} (P : List Ty → A → Type 0) (Q : List Ty → B → Type 0) (tys : List Ty)
      (r : Run A) (f : A × Store → Run B)
      → Safe P tys r
      → ((a : A) (store : Store) (tys' : List Ty)
          → Extends tys tys'
          → StoreFits store tys'
          → P tys' a
          → Safe Q tys' (f (a, store)))
      → Safe Q tys (r >>= f)
  >>=-Safe P Q tys (ok (a, store)) f (tys', x, s, p) k =
      Safe-weaken Q tys tys' (f (a, store)) x (k a store tys' x s p)
  >>=-Safe P Q tys (err (arithmetic e)) f h k = h
  >>=-Safe P Q tys (err (breaks value store)) f h k = tt
  >>=-Safe P Q tys (err out_of_fuel) f h k = h
  >>=-Safe P Q tys panic f h k = absurd h

  -- A computation that is safe with any cells that extend the given ones, and has values of a type.
  abbrev pub Sound : Ty → List Ty → (Store → Run Value) → Type 0
  Sound ty tys run =
      (tys' : List Ty) (store : Store)
      → Extends tys tys'
      → StoreFits store tys'
      → Safe (λ _ v. HasKind v ty) tys' (run store)

  pub if-Safe :
      {A : Type 0} (P : List Ty → A → Type 0) (tys : List Ty) (b : Bool) (r s : Run A)
      → Safe P tys r
      → Safe P tys s
      → Safe P tys (if b then r else s)
  if-Safe P tys true r s h k = h
  if-Safe P tys false r s h k = k

  -- The outcome of an operator: a value of the type, or a fault.
  abbrev pub Given : Ty → Outcome Stop Value → Type 0
  Given ty (ok a) = HasKind a ty
  Given ty (err (arithmetic e)) = M
  Given ty (err e) = ⊥
  Given ty panic = ⊥

  pub Given-Safe :
      {B : Type 0} (ty : Ty) (Q : List Ty → B → Type 0) (tys : List Ty) (r : Outcome Stop Value)
      (f : Value → Run B)
      → Given ty r
      → ((a : Value) → HasKind a ty → Safe Q tys (f a))
      → Safe Q tys (r >>= f)
  Given-Safe ty Q tys (ok a) f h k = k a h
  Given-Safe ty Q tys (err (arithmetic e)) f h k = h
  Given-Safe ty Q tys (err (breaks value store)) f h k = absurd h
  Given-Safe ty Q tys (err out_of_fuel) f h k = absurd h
  Given-Safe ty Q tys panic f h k = absurd h
