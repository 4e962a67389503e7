-- ===== src/Rules/Moves.antt =====
-- control_node/domain/rules.py: where a `mv` that the rules admit ends.
use dfsha_telematica.Prelude.{
  sym, ◌≡◌, ◌≢◌, refl, ap, ◌∙◌, Bool, true, false, List, [], ◌∷◌, ◌++◌, arith, ==_iff, nat_eq,
  list_eq, ◌⊎◌, inl, inr, Bool-cases,
}
use dfsha_telematica.Errors.{Result, ok, ◌>>=◌, bind-eq_ok}
use dfsha_telematica.FilePath.{
  Text, FilePath, name, parent, child, is_ancestor_of, last_or_error, but_last,
}
use dfsha_telematica.FilePath.Ancestors.{is_ancestor_of_iff, Below, child_lem, child-eq_ok}
use dfsha_telematica.Rules.{
  MoveKind, missing, directory, file, MoveDecision, target, decide_move, ensure_move_is_legal,
}

-- The two rules one after the other, as `mv` calls them.
abbrev pub planned : FilePath → FilePath → MoveKind → Bool → Result FilePath
planned src dst kind src_is_directory = do
  d ← decide_move src dst kind
  u ← ensure_move_is_legal src d src_is_directory
  target d

ensure_move_is_legal-ok :
    (src : FilePath) (d : MoveDecision) (src_is_directory : Bool) {t : FilePath}
    → ensure_move_is_legal src d src_is_directory ≡ ok tt
    → target d ≡ ok t
    → (t ≢ src) × (src_is_directory ≡ true → is_ancestor_of src t ≡ false)
unfolding ensure_move_is_legal
ensure_move_is_legal-ok src d src_is_directory {t} h e =
    let checks = rw (ensure_move_is_legal, e) at h in
    (
      (λ same.
          ground (
            arith,
            checks,
            ap (λ (p : FilePath). p.segments) same,
            ==_iff t.segments src.segments,
          )),
      (λ dir. ground (arith, checks)),
    )

-- A legal move changes the place, and never puts a directory inside of itself.
pub planned-legal :
    (src dst : FilePath) (kind : MoveKind) (src_is_directory : Bool) (t : FilePath)
    → planned src dst kind src_is_directory ≡ ok t
    → (t ≢ src) × ((src_is_directory ≡ false) ⊎ ¬ Below src t)
planned-legal src dst kind src_is_directory t h =
    let (d, _, h1) = bind-eq_ok (decide_move src dst kind) _ h in
    let (u, legal, reached) = bind-eq_ok (ensure_move_is_legal src d src_is_directory) _ h1 in
    let (moved, apart) = ensure_move_is_legal-ok src d src_is_directory legal reached in
    (
      moved,
      elim (Bool-cases src_is_directory) [
        | inl dir ↦ inr (λ below. cc (apart dir, (is_ancestor_of_iff src t).1 below))
        | inr other ↦ inl other
      ],
    )

but_last-last : (xs : List Text) (n : Text) → last_or_error xs ≡ ok n → but_last xs ++ n ∷ [] ≡ xs
but_last-last [] n h = cc
but_last-last (x ∷ []) n h = cc
but_last-last (x ∷ y ∷ xs) n h = ap (λ l. x ∷ l) (but_last-last (y ∷ xs) n h)

-- What the move decides, kind by kind.
abbrev Place : FilePath → FilePath → MoveKind → MoveDecision → Type 0
Place src dst missing d = (d.parent ≡ parent dst) × (name dst ≡ ok d.name)
Place src dst directory d = (d.parent ≡ dst) × (name src ≡ ok d.name)
Place src dst file d = ⊥

decide_move-Place :
    (src dst : FilePath) (kind : MoveKind) (d : MoveDecision)
    → decide_move src dst kind ≡ ok d
    → Place src dst kind d
unfolding decide_move
decide_move-Place src dst missing d h = ground arith
decide_move-Place src dst directory d h = ground arith
decide_move-Place src dst file d h = ground arith

child_of_parent :
    (dst t : FilePath) (d : MoveDecision)
    → Place dst dst missing d
    → child d.parent d.name ≡ ok t
    → t ≡ dst
unfolding parent name
child_of_parent dst t d (up, named) reached =
    let e = child-eq_ok d.parent d.name reached in
    let all =
      e
      ∙ ap (λ (p : FilePath). p.segments ++ d.name ∷ []) up
      ∙ but_last-last dst.segments d.name named in
    λ i. record { segments = all i }

-- Onto a name that is not there yet a move ends exactly there; onto a directory it ends inside it,
-- under the old name; onto a file it never succeeds.
pub planned-place :
    (src dst : FilePath) (kind : MoveKind) (src_is_directory : Bool) (t : FilePath)
    → planned src dst kind src_is_directory ≡ ok t
    → ((kind ≡ missing) × (t ≡ dst)) ⊎ ((kind ≡ directory) × (parent t ≡ dst) × (name t ≡ name src))
planned-place src dst kind src_is_directory t h =
    let (d, decided, h1) = bind-eq_ok (decide_move src dst kind) _ h in
    let (_, _, reached) = bind-eq_ok (ensure_move_is_legal src d src_is_directory) _ h1 in
    by_kind kind d (decide_move-Place src dst kind d decided) (unfold target in reached)
  where
    by_kind :
        (kind : MoveKind) (d : MoveDecision)
        → Place src dst kind d
        → child d.parent d.name ≡ ok t
        → ((kind ≡ missing) × (t ≡ dst))
          ⊎ ((kind ≡ directory) × (parent t ≡ dst) × (name t ≡ name src))
    by_kind missing d place reached = inl (refl, child_of_parent dst t d place reached)
    by_kind directory d place reached =
        let (_, up, named) = child_lem d.parent d.name t reached in
        inr (refl, up ∙ place.0, named ∙ sym place.1)
    by_kind file d place reached = absurd place
