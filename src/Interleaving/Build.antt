-- ===== src/Interleaving/Build.antt =====
-- Building a reference word by word, and reading it back: `NewRef`, `RefPush`, `RefGet`.
pub mod Lists
use starstream.Prelude.{
  get_elem?-lt_length, ℕ, zero, suc, ◌+◌, ◌*◌, ◌≤◌, ◌<◌, ◌≡◌, refl, ◌∙◌, sym, none, some, List, [],
  ◌∷◌, ◌++◌, length, get_elem?, replicate, insert, ok, ◌>>=◌, arith, length-append, ltb, true,
  remove, ap, if◌then◌else◌,
}
use mathlib.Core.List.{append_assoc, append-nil}
use starstream.Interleaving.Effects.{Value, Ref, nil, ref_width, Word, values, word_eq}
use starstream.Interleaving.Instance.{Checked}
use starstream.Interleaving.State.{InterleavingState}
use starstream.Interleaving.Rules.Words.{Allocatable, get_word-at, word_eq_refl}
use starstream.Interleaving.Machine.Refs.{new_ref, ref_push, ref_get, push_vals}
use starstream.Interleaving.Build.Lists.{
  contents_of, length-contents_of, push_vals-fill, get_elem?-word,
}

-- The current process pushes words, one `RefPush` after another.
pub push_all : InterleavingState → List Word → Checked InterleavingState
push_all s [] = ok s
push_all s (w ∷ ws) = do s' ← ref_push s w; push_all s' ws

-- The words `ws` are still to come to the reference `r` of `size` words.
record Partial (s : InterleavingState) (r : Ref) (offset size : ℕ) (done : List Value)
    (ws : List Word) : Type 0 where
  building : s.ref_building s.id_curr ≡ some (r, offset, size)
  stored : s.ref_store r ≡ some (done ++ replicate (length ws * ref_width) nil)
  sized : s.ref_sizes r ≡ some size
  position : length done ≡ offset * ref_width
  exact : offset + length ws ≡ size

record Complete (s s' : InterleavingState) (r : Ref) (size : ℕ) (contents : List Value)
    : Type 0 where
  closed : s'.ref_building s.id_curr ≡ none
  stored : s'.ref_store r ≡ some contents
  sized : s'.ref_sizes r ≡ some size
  same : s'.id_curr ≡ s.id_curr

pushed_contents :
    (s : InterleavingState) (r : Ref) (offset size : ℕ) (done : List Value) (w : Word)
    (ws : List Word)
    → Partial s r offset size done (w ∷ ws)
    → push_vals s.id_curr size
        (offset * ref_width)
        (values w)
        (done ++ replicate (suc (length ws) * ref_width) nil)
      ≡ ok ((done ++ values w) ++ replicate (length ws * ref_width) nil)
pushed_contents s r offset size done w ws p =
    let e : suc (length ws) * ref_width ≡ 4 + length ws * ref_width = omega arith in
    rw (e, ← p.position, append_assoc done (values w) (replicate (length ws * ref_width) nil))
      (push_vals-fill s.id_curr size done (values w) (length ws * ref_width)
        (omega (arith, p.position, p.exact)))

abbrev pushed : InterleavingState → Ref → (offset size : ℕ) → List Value → InterleavingState
pushed s r offset size new = record s {
  ref_store = insert s.ref_store r new;
  ref_building =
      if ltb (offset + 1) size
      then insert (remove s.ref_building s.id_curr) s.id_curr (r, offset + 1, size)
      else remove s.ref_building s.id_curr;
}

ref_push-pushed :
    (s : InterleavingState) (r : Ref) (offset size : ℕ) (w : Word) (old new : List Value)
    → s.ref_building s.id_curr ≡ some (r, offset, size)
    → s.ref_store r ≡ some old
    → push_vals s.id_curr size (offset * ref_width) (values w) old ≡ ok new
    → ref_push s w ≡ ok (pushed s r offset size new)
unfolding ref_push
ref_push-pushed s r offset size w old new b st h = ground arith

push_all-Complete :
    (s : InterleavingState) (r : Ref) (offset size : ℕ) (done : List Value) (w : Word)
    (ws : List Word)
    → Partial s r offset size done (w ∷ ws)
    → (s' : InterleavingState) × (push_all s (w ∷ ws) ≡ ok s')
      × Complete s s' r size (done ++ contents_of (w ∷ ws))
unfolding push_all
push_all-Complete s r offset size done w [] p =
    let new : List Value = (done ++ values w) ++ [] in
    let pushes =
      ref_push-pushed s r offset size w _ new p.building p.stored
        (pushed_contents s r offset size done w [] p) in
    (
      pushed s r offset size new,
      rw pushes,
      record {
        closed = ground (arith, p.exact);
        stored = ground (arith, append-nil (done ++ values w));
        sized = p.sized;
        same = refl;
      },
    )
push_all-Complete s r offset size done w (x ∷ ws) p =
    let new : List Value = (done ++ values w) ++ replicate (suc (length ws) * ref_width) nil in
    let pushes =
      ref_push-pushed s r offset size w _ new p.building p.stored
        (pushed_contents s r offset size done w (x ∷ ws) p) in
    let (s', e, c) =
      push_all-Complete (pushed s r offset size new) r (offset + 1) size (done ++ values w) x ws
        (record {
          building = ground (arith, p.exact);
          stored = ground arith;
          sized = p.sized;
          position = omega (arith, p.position, length-append done (values w));
          exact = omega (arith, p.exact);
        }) in
    (
      s',
      rw pushes e,
      record {
        closed = c.closed;
        stored = rw c.stored (ap some (append_assoc done (values w) (contents_of (x ∷ ws))));
        sized = c.sized;
        same = c.same;
      },
    )

Complete-ref_get :
    (s s' : InterleavingState) (r : Ref) (ws : List Word)
    → Complete s s' r (length ws) (contents_of ws)
    → (i : ℕ) (v : Word) → get_elem? ws i ≡ some v
    → ref_get s' r i v ≡ ok s'
unfolding ref_get
Complete-ref_get s s' r ws c i v h =
    let lt = get_elem?-lt_length ws i h in
    ground (
      arith,
      c.stored,
      c.sized,
      lt,
      word_eq_refl v,
      get_word-at (contents_of ws) (length ws) (i * ref_width) v (get_elem?-word ws i v h)
          (omega (arith, lt)),
    )

-- A process that builds no reference can announce one of the size of a list of words, if this can be
-- allocated, push the words
-- one after another, which ends the building, and read back the word at each place of the list.
pub build_read :
    (s : InterleavingState) (w : Word) (ws : List Word) (i : ℕ) (v : Word)
    → Allocatable (length (w ∷ ws))
    → s.ref_building s.id_curr ≡ none
    → get_elem? (w ∷ ws) i ≡ some v
    → (s₁ : InterleavingState) × (s₂ : InterleavingState) × (new_ref s
          (length (w ∷ ws))
          s.ref_counter
        ≡ ok s₁)
      × (push_all s₁ (w ∷ ws) ≡ ok s₂)
      × (s₂.ref_building s.id_curr ≡ none)
      × (ref_get s₂ s.ref_counter i v ≡ ok s₂)
build_read s w ws i v small closed there =
    let size = length (w ∷ ws) in
    let s₁ : InterleavingState = record s {
      ref_counter = s.ref_counter + 1;
      ref_store = insert s.ref_store s.ref_counter (replicate (size * ref_width) nil);
      ref_sizes = insert s.ref_sizes s.ref_counter size;
      ref_building = insert s.ref_building s.id_curr (s.ref_counter, 0, size);
    } in
    let (s₂, e, c) = push_all-Complete s₁ s.ref_counter 0 size [] w ws (record {
      building = ground arith;
      stored = ground arith;
      sized = ground arith;
      position = refl;
      exact = omega arith;
    }) in
    (
      s₁,
      s₂,
      unfold new_ref in ground arith,
      e,
      c.closed,
      Complete-ref_get s₁ s₂ s.ref_counter (w ∷ ws) c i v there,
    )
