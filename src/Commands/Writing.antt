-- ===== src/Commands/Writing.antt =====
-- control_node/commands/files.py: the commit and the abort of a reservation. Log lines are not
-- modelled.
pub mod OneVisible
pub mod Clearing
pub mod Row
pub mod Outcome
pub mod Published
pub mod Aborting
pub mod Answered
use dfsha_telematica.Prelude.{
  ℕ, String, Bool, not, ◌&&◌, ◌||◌, Option, none, some, List, [], ◌∷◌, length, ◌==◌, string_eq,
  if◌then◌else◌,
}
use dfsha_telematica.Errors.{Result, ok, err, not_found}
use dfsha_telematica.FilePath.{Text, FilePath, child, to_text}
use dfsha_telematica.Entities.{File, writing, committed, file_state_eq}
use dfsha_telematica.Rules.{ensure_can_commit, ensure_can_abort}
use dfsha_telematica.Session.{Exec, pure, raise, lift, with_uow, commit, when, ◌>>=◌, ◌>>◌}
use dfsha_telematica.Database.{Database}
use dfsha_telematica.Repositories.FileRows
use dfsha_telematica.Repositories.BlockRows
use dfsha_telematica.Repositories.DirectoryRows.{absolute_path}

pub record CommittedFile : Type 0 where
  pub path : Text
  pub size : ℕ
  pub block_count : ℕ

-- A reservation that is not there, or is another user's, is not found.
abbrev pub own_reservation : Option File → String → Exec Database File
own_reservation none owner_id = raise not_found
own_reservation (some f) owner_id = if not (f.owner_id == owner_id) then raise not_found else pure f

-- Copy on write: the version before, if it is another file and committed.
abbrev pub retire : Option File → File → ℕ → Exec Database (Unit {0})
retire none file now = pure tt
retire (some previous) file now =
    when (not (previous.id == file.id) && previous.state == committed)
      (FileRows.mark_deleted previous.id now)

abbrev pub answer : String → File → Exec Database CommittedFile
answer file_id file = do
  directory ← absolute_path file.directory_id
  path ← lift (child directory file.name)
  blocks ← BlockRows.list_for_file file_id
  pure (record { path = to_text path; size = file.size; block_count = length blocks })

-- What is written, from the previous version on.
abbrev pub publish : String → File → String → String → ℕ → Exec Database (Unit {0})
publish file_id file wrapped_key key_algo now = do
  previous ← FileRows.get_live_by_name file.directory_id file.name
  retire previous file now
  when (not (wrapped_key == "")) (FileRows.set_wrapped_key file_id wrapped_key key_algo)
  FileRows.mark_committed file_id now
  commit

unfoldable pub commit_file :
    String → String → ℕ → String → String → ℕ → Database → Result CommittedFile × Database
commit_file owner_id file_id write_quorum wrapped_key key_algo now = with_uow (do
  found ← FileRows.get file_id
  file ← own_reservation found owner_id
  below ← BlockRows.blocks_below_quorum file_id write_quorum
  lift (ensure_can_commit file below now)
  publish file_id file wrapped_key key_algo now
  answer file_id file)

abbrev pub drop_reservation : String → File → ℕ → Exec Database (Unit {0})
drop_reservation file_id file now =
    when (file.state == writing) (do FileRows.mark_deleted file_id now; commit)

unfoldable pub abort_file : String → String → ℕ → Database → Result (Unit {0}) × Database
abort_file owner_id file_id now = with_uow (do
  found ← FileRows.get file_id
  file ← own_reservation found owner_id
  lift (ensure_can_abort file)
  drop_reservation file_id file now)
