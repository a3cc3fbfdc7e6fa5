-- ===== src/Matching/Switch.antt =====
-- A switch that `compile` makes chooses the first clause that matches, if its subtrees do.
use starstream.Prelude.{
  ℕ, ◌<◌, ◌≡◌, refl, arith, true, Option, List, [], ◌∷◌, ◌++◌, length, ok, ◌>>=◌, Bool-cases, inl,
  inr, All, Forall2-append, ◌∙◌,
}
use starstream.Types.{Ty}
use starstream.Matching.Pattern.{
  Ctor, ctor_eq, Row, Compiled, DecisionTree, switch, Cases, no_case, case, Default, no_default,
  default, field_types,
}
use starstream.Matching.Compile.{
  focus, contains, specialize, specialize_pat, specialize_col_types, default_pat, default_matrix,
  default_col_types, compile_cases, compile_default, compile_switch, is_complete_signature,
  select_column, head_constructors,
}
use starstream.Matching.Meaning.{
  Val, con, opaque, Vals, vals, HasTy, HaveTypes, run, run_cases, run_default, first, matrix_size,
}
use starstream.Matching.Columns.{length-Forall2, Forall2-focus}
use starstream.Matching.Slices.{Slices, CtorFits}
use starstream.Matching.Decompose.{
  kept, decompose-eq-kept, column_ctors, kept-WellTyped, kept-size, kept-first,
}
use starstream.Matching.Branches.{
  ctor_eq→eq, arity-field_types, AllHaveTy-vals, specialize_pat-AlwaysTaken, specialize_pat-Alike,
  default_pat-AlwaysTaken, default_pat-Alike, NotAmong,
}
use starstream.Matching.Chosen.{Correct, Compiles, chosen, run-switch, complete-among}

module _ (rec : List Row → List Ty → Compiled DecisionTree) (rows : List Row) (ts : List Ty)
    (compiles : Compiles rec (matrix_size rows)) (tb : List Ty) (ty : Ty) (ta : List Ty) (i : ℕ)
    (at : focus ts i ≡ ok (tb, ty, ta)) (sigma : List Ctor) (sl : Slices tb ty ta i sigma rows)
    (some_ctor : 0 < column_ctors tb ty ta i sigma rows sl) where
  abbrev Chooses : Cases → List Ctor → Type 0
  Chooses cases cs =
      (otherwise : Option ℕ) (vs vb : List Val) (v : Val) (va : List Val)
      → focus vs i ≡ ok (vb, v, va)
      → HaveTypes vb tb
      → HasTy v ty
      → HaveTypes va ta
      → run_cases cases otherwise vb v va ≡ chosen cs v (first rows vs) otherwise

  -- The rows that are left for the constructor `c`, whose fields have the types `us`.
  abbrev left_for : Ctor → List Ty → List Row
  left_for c us = kept tb ty ta i sigma us (specialize_pat c (length us)) rows sl

  left_for-Correct :
      (c : Ctor) (us : List Ty)
      → field_types c ty ≡ ok us
      → (t : DecisionTree) × (rec (left_for c us) (tb ++ (us ++ ta)) ≡ ok t)
        × Correct (left_for c us) (tb ++ (us ++ ta)) t
  left_for-Correct c us e =
      let taken = specialize_pat-AlwaysTaken ty sigma c us e in
      let take = specialize_pat c (length us) in
      compiles (left_for c us) (tb ++ (us ++ ta))
        (kept-WellTyped tb ty ta i sigma us take rows sl taken)
        (omega (arith, kept-size tb ty ta i sigma us take rows sl taken))

  -- The subtree of the constructor of a value chooses the value's row.
  left_for-run :
      (c : Ctor) (us : List Ty) (t : DecisionTree)
      → field_types c ty ≡ ok us
      → Correct (left_for c us) (tb ++ (us ++ ta)) t
      → (vs vb : List Val) (d : Ctor) (args : Vals) (va : List Val) → ctor_eq c d ≡ true
      → focus vs i ≡ ok (vb, con d args, va)
      → HaveTypes vb tb
      → HasTy (con d args) ty
      → HaveTypes va ta
      → run t (vb ++ (vals args ++ va)) ≡ first rows vs
  unfolding HasTy
  left_for-run c us t e correct vs vb d args va k f hb (_, (us', e', hargs)) ha =
      let same = ctor_eq→eq c d k in
      let q : us' ≡ us = cc in
      let typed = AllHaveTy-vals args us (rw (← q) hargs) in
      let len = length-Forall2 HasTy (vals args) us typed in
      correct (vb ++ (vals args ++ va)) (
        Forall2-append HasTy vb (vals args ++ va) tb (us ++ ta) hb
          (Forall2-append HasTy (vals args) va us ta typed ha))
      ∙ kept-first tb ty ta i sigma us (specialize_pat c (length us)) vs vb (con d args) va
          (vals args) f len rows sl (specialize_pat-AlwaysTaken ty sigma c us e)
          (λ p _ _. specialize_pat-Alike c d (length us) args k len p)

  Chooses-no_case : Chooses no_case []
  unfolding run contains
  Chooses-no_case otherwise vs vb (con d args) va f hb hv ha = refl
  Chooses-no_case otherwise vs vb (opaque id) va f hb hv ha = refl

  Chooses-case :
      (c : Ctor) (us : List Ty) (t : DecisionTree) (cases : Cases) (cs : List Ctor)
      → field_types c ty ≡ ok us
      → Correct (left_for c us) (tb ++ (us ++ ta)) t
      → Chooses cases cs
      → Chooses (case c t cases) (c ∷ cs)
  unfolding run contains
  Chooses-case c us t cases cs e correct h otherwise vs vb (opaque id) va f hb hv ha =
      h otherwise vs vb (opaque id) va f hb hv ha
  Chooses-case c us t cases cs e correct h otherwise vs vb (con d args) va f hb hv ha = ground (
    arith,
    λ (k : ctor_eq c d ≡ true). left_for-run c us t e correct vs vb d args va k f hb hv ha,
    h otherwise vs vb (con d args) va f hb hv ha,
  )

  compile_cases-Chooses :
      (cs : List Ctor)
      → All (CtorFits ty) cs
      → (cases : Cases) × (compile_cases rec rows ts i ty cs ≡ ok cases) × Chooses cases cs
  unfolding compile_cases specialize specialize_col_types
  compile_cases-Chooses [] a = (no_case, refl, Chooses-no_case)
  compile_cases-Chooses (c ∷ cs) ((_, (us, e)), a) =
      let (t, made, correct) = left_for-Correct c us e in
      let (cases, rest, h) = compile_cases-Chooses cs a in
      let kept_rows =
        decompose-eq-kept tb ty ta i sigma us (specialize_pat c (length us)) rows sl in
      (
        case c t cases,
        rw (arity-field_types c ty e, ◌>>=◌)
            (rw (kept_rows, ◌>>=◌) (rw (e, ◌>>=◌) (rw (at, ◌>>=◌) (rw (made, ◌>>=◌) (rw rest))))),
        Chooses-case c us t cases cs e correct h,
      )

  -- A value that no constructor of the column makes goes to the default.
  default-run :
      (t : DecisionTree)
      → Correct (kept tb ty ta i sigma [] default_pat rows sl) (tb ++ ta) t
      → (vs vb : List Val) (v : Val) (va : List Val) → focus vs i ≡ ok (vb, v, va)
      → NotAmong sigma v
      → HaveTypes vb tb
      → HaveTypes va ta
      → run t (vb ++ va) ≡ first rows vs
  default-run t correct vs vb v va f n hb ha =
      correct (vb ++ va) (Forall2-append HasTy vb va tb ta hb ha)
      ∙ kept-first tb ty ta i sigma [] default_pat vs vb v va [] f refl rows sl
          (default_pat-AlwaysTaken ty sigma) (λ p _ k. default_pat-Alike sigma v n p k)

  -- What a default chooses, and what the switch leaves to it.
  abbrev Defaults : Default → Type 0
  Defaults other =
      (vs vb : List Val) (v : Val) (va : List Val)
      → focus vs i ≡ ok (vb, v, va)
      → NotAmong sigma v
      → HaveTypes vb tb
      → HasTy v ty
      → HaveTypes va ta
      → run_default other (vb ++ va) ≡ first rows vs

  compile_default-Defaults :
      All (CtorFits ty) sigma
      → (c : Ctor) (cs : List Ctor) → sigma ≡ c ∷ cs
      → (other : Default) × (compile_default rec rows ts i (is_complete_signature sigma ty)
          ≡ ok other)
        × Defaults other
  unfolding compile_default default_matrix default_col_types run
  compile_default-Defaults a c cs q = elim (Bool-cases (is_complete_signature sigma ty)) [
    | inl k ↦ (
      no_default,
      rw k refl,
      λ vs vb v va f n hb hv ha. absurd (complete-among sigma ty c cs v a q k hv n),
    )
    | inr k ↦
        let taken = default_pat-AlwaysTaken ty sigma in
        let (t, made, correct) =
          compiles (kept tb ty ta i sigma [] default_pat rows sl) (tb ++ ta)
            (kept-WellTyped tb ty ta i sigma [] default_pat rows sl taken)
            (omega (arith, kept-size tb ty ta i sigma [] default_pat rows sl taken)) in
        (
          default t,
          rw k (
              rw (decompose-eq-kept tb ty ta i sigma [] default_pat rows sl, ◌>>=◌)
                (rw (at, ◌>>=◌) (rw made))),
          λ vs vb v va f n hb hv ha. default-run t correct vs vb v va f n hb ha,
        )
  ]

  chosen-first :
      (other : Default)
      → Defaults other
      → (vs vb : List Val) (v : Val) (va : List Val) → focus vs i ≡ ok (vb, v, va)
      → HaveTypes vb tb
      → HasTy v ty
      → HaveTypes va ta
      → chosen sigma v (first rows vs) (run_default other (vb ++ va)) ≡ first rows vs
  chosen-first other d vs vb (opaque id) va f hb hv ha = d vs vb (opaque id) va f tt hb hv ha
  chosen-first other d vs vb (con e args) va f hb hv ha = elim (Bool-cases (contains sigma e)) [
    | inl k ↦ rw k
    | inr k ↦ rw k (d vs vb (con e args) va f k hb hv ha)
  ]

  -- The cases and the default of a switch make a correct tree.
  switch-Correct :
      (cases : Cases) (other : Default)
      → Chooses cases sigma
      → Defaults other
      → Correct rows ts (switch i cases other)
  switch-Correct cases other h d vs hvs =
      let (vb, v, va, f, hb, hv, ha) = Forall2-focus HasTy vs ts i hvs at in
      run-switch i cases other vs vb v va f
      ∙ h (run_default other (vb ++ va)) vs vb v va f hb hv ha
      ∙ chosen-first other d vs vb v va f hb hv ha

  pub switch-returns :
      select_column rows ≡ ok i
      → head_constructors rows i ≡ ok sigma
      → All (CtorFits ty) sigma
      → (c : Ctor) (cs : List Ctor) → sigma ≡ c ∷ cs
      → (t : DecisionTree) × (compile_switch rec rows ts ≡ ok t) × Correct rows ts t
  unfolding compile_switch
  switch-returns e heads a c cs q =
      let (cases, e₁, h) = compile_cases-Chooses sigma a in
      let (other, e₂, d) = compile_default-Defaults a c cs q in
      (
        switch i cases other,
        rw (e, ◌>>=◌) (rw (heads, ◌>>=◌) (rw (at, ◌>>=◌) (rw (e₁, ◌>>=◌) (rw e₂)))),
        switch-Correct cases other h d,
      )
