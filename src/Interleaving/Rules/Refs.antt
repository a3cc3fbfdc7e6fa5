-- ===== src/Interleaving/Rules/Refs.antt =====
-- The rules that build, read and write references, after EFFECTS_REFERENCE.md. The reference has a size
-- of 16 bits for NewRef; the code, and the rule, have the bound of what can be allocated.
use starstream.Prelude.{
  ℕ, ◌+◌, ◌*◌, length, ◌<◌, ◌≡◌, ltb, if◌then◌else◌, none, some, List, [], ◌∷◌, ok, replicate,
  insert, remove, arith, >>=-returns, ok_or, refuse, leb,
}
use starstream.Interleaving.Effects.{Value, Ref, nil, ref_width, Word, values}
use starstream.Interleaving.State.{InterleavingState}
use starstream.Interleaving.Rules.Words.{
  Allocatable, overwritten, NilBeyond, IsWordAt, push_vals-overwritten, write_vals-overwritten,
  write_vals-within, get_word-IsWordAt,
}
use starstream.Interleaving.Machine.Refs.{
  new_ref, push_vals, ref_push, get_word, ref_get, write_vals, ref_write,
}

module _ (s s' : InterleavingState) where
  pub record NewRef (size : ℕ) (r : Ref) : Type 0 where
    pub fits : Allocatable size
    pub closed : s.ref_building s.id_curr ≡ none
    pub next : r ≡ s.ref_counter
    pub after : s' ≡ record s {
      ref_counter = s.ref_counter + 1;
      ref_store = insert s.ref_store s.ref_counter (replicate (size * ref_width) nil);
      ref_sizes = insert s.ref_sizes s.ref_counter size;
      ref_building =
          if ltb 0 size
          then insert s.ref_building s.id_curr (s.ref_counter, 0, size)
          else s.ref_building;
    }

  pub new_ref-NewRef : (size : ℕ) (r : Ref) → new_ref s size r ≡ ok s' → NewRef size r
  unfolding new_ref
  new_ref-NewRef size r h = record {
    fits = ground arith;
    closed = ground arith;
    next = ground arith;
    after = ground arith;
  }

  pub record Pushes (vals : Word) (r : Ref) (offset size : ℕ) (old new : List Value) : Type 0 where
    pub building : s.ref_building s.id_curr ≡ some (r, offset, size)
    pub stored : s.ref_store r ≡ some old
    pub pushed : new ≡ overwritten (offset * ref_width) (values vals) old
    pub beyond : NilBeyond (size * ref_width) (offset * ref_width) (values vals)
    pub after : s' ≡ record s {
      ref_store = insert s.ref_store r new;
      ref_building =
          if ltb (offset + 1) size
          then insert (remove s.ref_building s.id_curr) s.id_curr (r, offset + 1, size)
          else remove s.ref_building s.id_curr;
    }

  pub ref_push-Pushes :
      (vals : Word)
      → ref_push s vals ≡ ok s'
      → (r : Ref) × (offset : ℕ) × (size : ℕ) × (old : List Value) × (new : List Value) × Pushes
          vals r offset size old new
  unfolding ref_push
  ref_push-Pushes vals h =
      let ((r, offset, size), building, h₁) =
        >>=-returns (ok_or (s.ref_building s.id_curr) _) _ h in
      let (old, stored, h₂) = >>=-returns (ok_or (s.ref_store r) _) _ h₁ in
      let (new, pushed, h₃) =
        >>=-returns (push_vals s.id_curr size (offset * ref_width) (values vals) old) _ h₂ in
      let contents =
        push_vals-overwritten s.id_curr size (offset * ref_width) (values vals) old new pushed in
      (
        r,
        offset,
        size,
        old,
        new,
        record {
          building = ground arith;
          stored = ground arith;
          pushed = contents.0;
          beyond = contents.1;
          after = ground arith;
        },
      )

  pub record Gets (r : Ref) (offset : ℕ) (ret : Word) (size : ℕ) (contents : List Value)
      : Type 0 where
    pub stored : s.ref_store r ≡ some contents
    pub sized : s.ref_sizes r ≡ some size
    pub within : offset < size
    pub read_back : IsWordAt contents (offset * ref_width) ret
    pub after : s' ≡ s

  pub ref_get-Gets :
      (r : Ref) (offset : ℕ) (ret : Word)
      → ref_get s r offset ret ≡ ok s'
      → (size : ℕ) × (contents : List Value) × Gets r offset ret size contents
  unfolding ref_get
  ref_get-Gets r offset ret h =
      let (contents, stored, h₁) = >>=-returns (ok_or (s.ref_store r) _) _ h in
      let (size, sized, h₂) = >>=-returns (ok_or (s.ref_sizes r) _) _ h₁ in
      let (_, within, h₃) = >>=-returns (refuse (leb size offset) _) _ h₂ in
      let (got, reads, h₄) = >>=-returns (get_word contents size (offset * ref_width)) _ h₃ in
      (
        size,
        contents,
        record {
          stored = ground arith;
          sized = ground arith;
          within = ground arith;
          read_back =
              get_word-IsWordAt contents size (offset * ref_width) ret (ground arith)
                (ground arith);
          after = ground arith;
        },
      )

  pub record Writes (r : Ref) (offset : ℕ) (vals : Word) (size : ℕ) (old new : List Value)
      : Type 0 where
    pub stored : s.ref_store r ≡ some old
    pub sized : s.ref_sizes r ≡ some size
    pub within : offset < size
    pub room : offset * ref_width + 3 < length old
    pub written : new ≡ overwritten (offset * ref_width) (values vals) old
    pub after : s' ≡ record s { ref_store = insert s.ref_store r new }

  pub ref_write-Writes :
      (r : Ref) (offset : ℕ) (vals : Word)
      → ref_write s r offset vals ≡ ok s'
      → (size : ℕ) × (old : List Value) × (new : List Value) × Writes r offset vals size old new
  unfolding ref_write
  ref_write-Writes r offset vals h =
      let (old, stored, h₁) = >>=-returns (ok_or (s.ref_store r) _) _ h in
      let (size, sized, h₂) = >>=-returns (ok_or (s.ref_sizes r) _) _ h₁ in
      let (_, within, h₃) = >>=-returns (refuse (leb size offset) _) _ h₂ in
      let (new, written, h₄) =
        >>=-returns (write_vals (offset * ref_width) (values vals) old) _ h₃ in
      (
        size,
        old,
        new,
        record {
          stored = ground arith;
          sized = ground arith;
          within = ground arith;
          room =
              write_vals-within (offset * ref_width) vals.w0 (vals.w1 ∷ vals.w2 ∷ vals.w3 ∷ []) old
                new written;
          written = write_vals-overwritten (offset * ref_width) (values vals) old new written;
          after = ground arith;
        },
      )
