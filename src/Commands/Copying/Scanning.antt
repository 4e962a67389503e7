-- ===== src/Commands/Copying/Scanning.antt =====
-- control_node/commands/rereplication.py and internal.py: the commands that add to the queue keep one
-- live task of a block.
use dfsha_telematica.Prelude.{
  ℕ, ◌+◌, String, ◌≡◌, ◌≢◌, refl, sym, ◌∙◌, subst, true, false, not, List, [], ◌∷◌, ◌++◌, arith,
  ltb, All, All-append, All-imp, any_of-none, ◌==◌, ==_iff, nat_eq, string_eq, inl, inr, Bool-cases,
}
use dfsha_telematica.Entities.{Block, BlockReplica}
use dfsha_telematica.Rows.{Task}
use dfsha_telematica.Leadership.{Fencing}
use dfsha_telematica.Membership.{MembershipThresholds}
use dfsha_telematica.Rereplication.{missing}
use dfsha_telematica.Session.{pure, commit, when, ◌>>=◌}
use dfsha_telematica.Session.Steady.{
  Steady, Steady-then, Steady-if, with_uow-keeps, commit-Steady, when-Steady, Reads-Steady,
}
use dfsha_telematica.Database.{Database}
use dfsha_telematica.Repositories.TaskRows
use dfsha_telematica.Repositories.ShortBlocks
use dfsha_telematica.Repositories.ShortBlocks.{ShortBlock}
use dfsha_telematica.Repositories.TaskRows.OneActive.{OneActive, added-OneActive}
use dfsha_telematica.Repositories.BlockPlanRows
use dfsha_telematica.Commands.Leading.{require_leadership}
use dfsha_telematica.Commands.Leading.Reading.{require_leadership-Reads}
use dfsha_telematica.Commands.Copying.{
  RereplicationPolicy, is_settled, to_gap, one_more, enqueue_gaps, scan_blocks, scan,
  scan_and_enqueue,
}
use dfsha_telematica.Commands.Collecting.{
  one_if, order_deletions, order_all, order_found, order_orphans, dispatch_gc_deletions,
}

-- `Drawn b i`: the id `i` may be drawn for a task of block `b`, and for no other block.
module _ (Drawn : String → String → Type 0)
    (one : (a b i : String) → Drawn a i → Drawn b i → a ≡ b) where
  -- A task whose id may be drawn for a block is a live task of that block.
  abbrev Ours : Task → Type 0
  Ours t = (b : String) → Drawn b t.id → TaskRows.active_for b t ≡ true

  record Steadily (db : Database) : Type 0 where
    alone : OneActive db.tasks
    ours : All Ours db.tasks

  new_ids :
      (t : Task) (rows : List Task)
      → Drawn t.block_id t.id
      → All Ours rows
      → All (λ u. TaskRows.active_for t.block_id u ≡ false) rows
      → All (λ (u : Task). u.id ≢ t.id) rows
  new_ids t [] d h k = tt
  new_ids t (u ∷ us) d h k = (
    λ e. let bad = h.0 t.block_id (subst (Drawn t.block_id) (sym e) d) in let good = k.0 in cc,
    new_ids t us d h.1 k.1,
  )

  add_unless_active-Steady :
      (t : Task)
      → Drawn t.block_id t.id
      → TaskRows.is_active t ≡ true
      → Steady Steadily (TaskRows.add_unless_active t)
  add_unless_active-Steady t d a s h =
      elim (Bool-cases (TaskRows.has_active t.block_id s.working.tasks)) [
        | inl e ↦ rw e h
        | inr e ↦
            let rows = s.working.tasks in
            let k = h.working in
            let there : Steadily (record s.working { tasks = rows ++ t ∷ [] }) = record {
              alone =
                  added-OneActive t rows
                    (new_ids t rows d k.ours (any_of-none (TaskRows.active_for t.block_id) rows e))
                    e k.alone;
              ours = All-append Ours rows (t ∷ []) k.ours (
                (λ b d'.
                    let same = one t.block_id b t.id d d' in
                    ground (arith, ==_iff t.block_id b, same, a)),
                tt,
              );
            } in
            rw e (record { durable = h.durable; working = there })
      ]

module _ (policy : RereplicationPolicy) (thresholds : MembershipThresholds) (now : ℕ)
    (new_id : String → String) (differ : (a b : String) → new_id a ≡ new_id b → a ≡ b) where
  abbrev Scanned : String → String → Type 0
  Scanned b i = i ≡ new_id b

  abbrev J : Database → Type 0
  J = Steadily Scanned (λ a b i d e. differ a b (sym d ∙ e))

  enqueue_gaps-Steady :
      (bs : List ShortBlock) → Steady J (enqueue_gaps policy thresholds now new_id bs)
  enqueue_gaps-Steady [] = λ s h. h
  enqueue_gaps-Steady (b ∷ bs) =
      let rest = enqueue_gaps-Steady bs in
      Steady-if J (not (is_settled b.replicas now thresholds policy.grace)) _ _ rest (
        Steady-if J (missing (to_gap b now thresholds policy.replication_factor) == 0) _ _ rest (
          Steady-then J
            (TaskRows.enqueue (new_id b.block_id) b.block_id
              (to_gap b now thresholds policy.replication_factor).current_replicas now)
            (λ task_id.
              enqueue_gaps policy thresholds now new_id bs >>= λ n. pure (one_more task_id n))
            (add_unless_active-Steady Scanned (λ x y i d e. differ x y (sym d ∙ e))
              (TaskRows.copy_task (new_id b.block_id) b.block_id
                (to_gap b now thresholds policy.replication_factor).current_replicas now)
              refl refl)
            (λ task_id.
              Steady-then J (enqueue_gaps policy thresholds now new_id bs)
                (λ n. pure (one_more task_id n)) rest (λ n s h. h))))

  scan_blocks-Steady :
      (bs : List ShortBlock) → Steady J (scan_blocks policy thresholds now new_id bs)
  scan_blocks-Steady bs =
      Steady-then J (enqueue_gaps policy thresholds now new_id bs)
        (λ n. when (ltb 0 n) commit >>= λ u. pure n) (enqueue_gaps-Steady bs)
        (λ n.
          Steady-then J (when (ltb 0 n) commit) (λ u. pure n)
            (when-Steady J (ltb 0 n) commit (commit-Steady J)) (λ u s k. k))

  scan-Steady : (fencing : Fencing) → Steady J (scan fencing policy thresholds now new_id)
  scan-Steady fencing =
      Steady-then J (require_leadership fencing now)
        (λ lease.
          ShortBlocks.blocks_missing_replicas policy.replication_factor
          >>= scan_blocks policy thresholds now new_id)
        (Reads-Steady J (require_leadership fencing now) (require_leadership-Reads fencing now))
        (λ lease.
          Steady-then J (ShortBlocks.blocks_missing_replicas policy.replication_factor)
            (scan_blocks policy thresholds now new_id) (λ s k. k) scan_blocks-Steady)

  -- The scan keeps at most one live task of a block, if the ids that it draws are new.
  pub scan_and_enqueue-OneActive :
      (fencing : Fencing) (db : Database)
      → All (λ (t : Task). (b : String) → t.id ≢ new_id b) db.tasks
      → OneActive db.tasks
      → OneActive (scan_and_enqueue fencing policy thresholds now new_id db).1.tasks
  unfolding scan_and_enqueue
  scan_and_enqueue-OneActive fencing db fresh h =
      (with_uow-keeps J (scan fencing policy thresholds now new_id) (scan-Steady fencing) db
        (record { alone = h; ours = All-imp _ _ db.tasks (λ t f b e. absurd (f b e)) fresh })).alone

module _ (now ttl : ℕ) (new_id : String → String → String)
    (differ : (a b m n : String) → new_id a m ≡ new_id b n → a ≡ b) where
  abbrev Ordered : String → String → Type 0
  Ordered b i = (n : String) × (i ≡ new_id b n)

  apart : (a b i : String) → Ordered a i → Ordered b i → a ≡ b
  apart a b i (m, d) (n, e) = differ a b m n (sym d ∙ e)

  abbrev G : Database → Type 0
  G = Steadily Ordered apart

  order_deletions-Steady :
      (expires_at : ℕ) (block_id : String) (rs : List BlockReplica)
      → Steady G (order_deletions now expires_at new_id block_id rs)
  order_deletions-Steady expires_at block_id [] = λ s h. h
  order_deletions-Steady expires_at block_id (r ∷ rs) =
      Steady-then G
        (TaskRows.enqueue_delete (new_id block_id r.data_node_id) block_id r.data_node_id now
          expires_at)
        (λ task_id.
          order_deletions now expires_at new_id block_id rs >>= λ n. pure (one_if task_id n))
        (add_unless_active-Steady Ordered apart
          (TaskRows.deletion (new_id block_id r.data_node_id) block_id r.data_node_id now
            expires_at)
          (r.data_node_id, refl) refl)
        (λ task_id.
          Steady-then G (order_deletions now expires_at new_id block_id rs)
            (λ n. pure (one_if task_id n)) (order_deletions-Steady expires_at block_id rs)
            (λ n s h. h))

  order_all-Steady :
      (expires_at : ℕ) (found : List (Block × List BlockReplica))
      → Steady G (order_all now expires_at new_id found)
  order_all-Steady expires_at [] = λ s h. h
  order_all-Steady expires_at ((b, rs) ∷ rest) =
      Steady-then G (order_deletions now expires_at new_id b.block_id rs) _
        (order_deletions-Steady expires_at b.block_id rs)
        (λ n.
          Steady-then G (order_all now expires_at new_id rest) _ (order_all-Steady expires_at rest)
            (λ g s h. h))

  order_found-Steady :
      (expires_at : ℕ) (found : List (Block × List BlockReplica))
      → Steady G (order_found now expires_at new_id found)
  order_found-Steady expires_at found =
      Steady-then G (order_all now expires_at new_id found) (λ g. commit >>= λ u. pure g)
        (order_all-Steady expires_at found)
        (λ g. Steady-then G commit (λ u. pure g) (commit-Steady G) (λ u s k. k))

  -- The dispatch of deletions keeps at most one live task of a block, if the ids that it draws are new.
  pub dispatch_gc_deletions-OneActive :
      (db : Database)
      → All (λ (t : Task). (b n : String) → t.id ≢ new_id b n) db.tasks
      → OneActive db.tasks
      → OneActive (dispatch_gc_deletions now ttl new_id db).1.tasks
  unfolding dispatch_gc_deletions
  dispatch_gc_deletions-OneActive db fresh h =
      (with_uow-keeps G (order_orphans now ttl new_id)
        (Steady-then G (BlockPlanRows.list_orphans now) (order_found now (now + ttl) new_id)
          (λ s k. k) (order_found-Steady (now + ttl)))
        db
        (record {
          alone = h;
          ours = All-imp _ _ db.tasks (λ t f b d. absurd (f b d.0 d.1)) fresh;
        })).alone
