-- ===== src/Repositories/FileLockRows.antt =====
-- SqlFileLockRepository of control_node/repositories/sql.py. The holder's display name, which no
-- rule reads, is not a column here.
use dfsha_telematica.Prelude.{
  ℕ, String, Bool, not, ◌&&◌, List, [], ◌∷◌, ◌++◌, ltb, keep, any_of, update_where, ◌==◌, string_eq,
  if◌then◌else◌,
}
use dfsha_telematica.FileLock.{FileLock}
use dfsha_telematica.Session.{Exec, gets, modify, state}
use dfsha_telematica.Database.{Database}

abbrev pub rows_of : String → List FileLock → List FileLock
rows_of file_id rows = keep (λ (l : FileLock). l.file_id == file_id) rows

abbrev pub lock_rows : String → Exec Database (List FileLock)
lock_rows file_id = gets (λ db. rows_of file_id db.file_locks)

abbrev pub peek : String → Exec Database (List FileLock)
peek file_id = gets (λ db. rows_of file_id db.file_locks)

-- The unique key of the table.
abbrev pub is_row : String → String → FileLock → Bool
is_row file_id holder_id l = l.file_id == file_id && l.holder_id == holder_id

abbrev pub upserted : FileLock → List FileLock → List FileLock
upserted lock rows =
    if any_of (is_row lock.file_id lock.holder_id) rows
    then update_where (is_row lock.file_id lock.holder_id) (λ l. lock) rows
    else rows ++ lock ∷ []

abbrev pub upsert : FileLock → Exec Database (Unit {0})
upsert lock = modify (λ db. record db { file_locks = upserted lock db.file_locks })

abbrev pub release : String → String → Exec Database Bool
release file_id holder_id = state λ db. (
  any_of (is_row file_id holder_id) db.file_locks,
  record db { file_locks = keep (λ l. not (is_row file_id holder_id l)) db.file_locks },
)

abbrev pub greatest_epoch : List FileLock → ℕ
greatest_epoch [] = 0
greatest_epoch (l ∷ ls) = let rest = greatest_epoch ls in if ltb rest l.epoch then l.epoch else rest

abbrev pub max_epoch : String → Exec Database ℕ
max_epoch file_id = gets (λ db. greatest_epoch (rows_of file_id db.file_locks))
