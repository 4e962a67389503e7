-- ===== src/Commands/Collecting/Orders.antt =====
-- control_node/commands/internal.py and repositories/sql.py: how many deletions are ordered, and what
-- becomes of an order that is not confirmed in time.
use dfsha_telematica.Prelude.{string_eq}
use dfsha_telematica.Rows.{task_state_eq, task_kind_eq}
use dfsha_telematica.Session.{Session}
use dfsha_telematica.Database.{Database}
use dfsha_telematica.Repositories.TaskRows
use dfsha_telematica.Repositories.BlockPlanRows
