-- ===== src/Commands/Namespace/Moving.antt =====
-- control_node/commands/namespace.py: mv.
use dfsha_telematica.Prelude.{ℕ, String, ◌≡◌, refl, ap, Option, none, some}
use dfsha_telematica.Errors.{ok}
use dfsha_telematica.FilePath.{Text, FilePath, parse}
use dfsha_telematica.Entities.{Directory, File}
use dfsha_telematica.Acl.{write}
use dfsha_telematica.Rules.{MoveDecision, decide_move, ensure_move_is_legal}
use dfsha_telematica.Session.{Session}
use dfsha_telematica.Session.Reading.{Reads}
use dfsha_telematica.Session.Whole.{Whole}
use dfsha_telematica.Database.{Database}
use dfsha_telematica.Resolver.{find_directory}
use dfsha_telematica.Reaching.{ResolvedAccess, is_some}
use dfsha_telematica.Commands.Namespace.{kind_of, parent_or_fail}
use dfsha_telematica.Commands.Namespace.Mkdir.{on}
use dfsha_telematica.Commands.Namespace.WellFormed.{Free}
use dfsha_telematica.Commands.Namespace.Relinking.{directory_moved, file_moved}
use dfsha_telematica.Commands.Namespace.Entries.{Reached}

-- The tables after the write of a move: of a directory, or else of a file.
abbrev pub Relinked : Option Directory → Option File → String → Text → Database → Database → Type 0
Relinked (some d) f up n db after = after ≡ directory_moved d.id up n db
Relinked none (some f) up n db after = after ≡ file_moved f.id up n db
Relinked none none up n db after = ⊥

-- After a successful mv: what stood at the source, in a directory on which the user may write, stands in
-- the place that was decided, which the rules allow, which was free, and which is in a directory that
-- the user reaches from the own root.
pub record Moved (owner_id : String) (raw_src raw_dst : Text) (now : ℕ) (db after : Database)
    : Type 0 where
  pub src : FilePath
  pub dst : FilePath
  pub parsed_src : parse raw_src none ≡ ok src
  pub parsed_dst : parse raw_dst none ≡ ok dst
  pub source : ResolvedAccess
  pub target : ResolvedAccess
  pub from : Reached owner_id src write (on db) source
  pub to : Reached owner_id dst write (on db) target
  pub decision : MoveDecision
  pub decided : decide_move src dst (kind_of target now) ≡ ok decision
  pub legal : ensure_move_is_legal src decision (is_some source.directory) ≡ ok tt
  pub up : Directory
  pub reached : find_directory owner_id decision.parent (on db) ≡ (ok (some up), on db)
  pub free : Free up.id decision.name db
  pub tables : Relinked source.directory source.file up.id decision.name db after

pub parent_or_fail-Reads : (o : Option Directory) → Reads (parent_or_fail o)
parent_or_fail-Reads none s = refl
parent_or_fail-Reads (some d) s = refl

pub parent_or_fail-some :
    (o : Option Directory) (d : Directory) (s : Session Database)
    → (parent_or_fail o s).0 ≡ ok d
    → o ≡ some d
parent_or_fail-some none d s h = absurd (cc)
parent_or_fail-some (some c) d s h = let same : c ≡ d = cc in ap some same

module _ (owner_id : String) (raw_src raw_dst : Text) (now : ℕ) (db : Database) where
  abbrev Q : Database → Type 0
  Q = Moved owner_id raw_src raw_dst now db
