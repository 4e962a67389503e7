-- ===== src/Rules.antt =====
-- control_node/domain/rules.py: the rules of the namespace, pure functions that decide or raise.
pub mod Reservations
pub mod Moves
use dfsha_telematica.Prelude.{
  ℕ, String, Bool, true, false, not, ◌&&◌, Option, none, some, List, [], ◌∷◌, ltb, ◌==◌, nat_eq,
  list_eq, if◌then◌else◌,
}
use dfsha_telematica.Errors.{
  Result, ok, err, ◌>>=◌, ◌>>◌, raise_if, invalid_path, not_found, already_exists,
  directory_not_empty, reservation_expired, blocks_not_stored, invalid_state,
}
use dfsha_telematica.FilePath.{Text, FilePath, is_root, name, parent, child, is_ancestor_of}
use dfsha_telematica.Entities.{
  File, FileState, writing, committed, deleted, file_state_eq, is_expired, is_visible, holds_name,
}

unfoldable pub ensure_directory_is_empty : ℕ → Bool → Result (Unit {0})
ensure_directory_is_empty entry_count recursive =
    raise_if (ltb 0 entry_count && not recursive) directory_not_empty

unfoldable pub ensure_name_is_free : Option File → ℕ → Result (Unit {0})
ensure_name_is_free none now = ok tt
ensure_name_is_free (some existing) now = raise_if (holds_name existing now) already_exists

unfoldable pub ensure_no_live_reservation : Option File → ℕ → Result (Unit {0})
ensure_no_live_reservation none now = ok tt
ensure_no_live_reservation (some existing) now =
    if not (existing.state == writing)
    then ok tt
    else raise_if (not (is_expired existing now)) already_exists

unfoldable pub ensure_visible : Option File → Result File
ensure_visible none = err not_found
ensure_visible (some file) = if not (is_visible file) then err not_found else ok file

abbrev pub is_nil {ℓ} : {A : Type ℓ} → List A → Bool
is_nil [] = true
is_nil (x ∷ xs) = false

-- The order of the tests is the code's: the state, the expiry, then the blocks.
unfoldable pub ensure_can_commit : File → List String → ℕ → Result (Unit {0})
ensure_can_commit file pending_block_ids now = do
  raise_if (file.state == committed) invalid_state
  raise_if (file.state == deleted) invalid_state
  raise_if (is_expired file now) reservation_expired
  raise_if (not (is_nil pending_block_ids)) blocks_not_stored

unfoldable pub ensure_can_abort : File → Result (Unit {0})
ensure_can_abort file = raise_if (file.state == committed) invalid_state

-- What there is at the destination of a `mv`.
pub data MoveKind : Type 0 where
  missing directory file : MoveKind

pub record MoveDecision : Type 0 where
  pub parent : FilePath
  pub name : Text

unfoldable pub target : MoveDecision → Result FilePath
target d = child d.parent d.name

abbrev pub decide_by_kind : FilePath → FilePath → MoveKind → Result MoveDecision
decide_by_kind src dst directory = do n ← name src; ok (record { parent = dst; name = n })
decide_by_kind src dst file = err already_exists
decide_by_kind src dst missing = do n ← name dst; ok (record { parent = parent dst; name = n })

unfoldable pub decide_move : FilePath → FilePath → MoveKind → Result MoveDecision
decide_move src dst kind = do
  raise_if (is_root src) invalid_path
  raise_if (is_root dst) already_exists
  decide_by_kind src dst kind

unfoldable pub ensure_move_is_legal : FilePath → MoveDecision → Bool → Result (Unit {0})
unfolding target
ensure_move_is_legal src decision src_is_directory = do
  t ← target decision
  raise_if (t.segments == src.segments) already_exists
  raise_if (src_is_directory && is_ancestor_of src t) invalid_path
