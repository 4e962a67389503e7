-- ===== src/Commands/Leading/Epochs.antt =====
-- control_node/commands/leadership.py: the epoch over a history of the database. Any number of
-- instances attempt and release the lease, in any order and at any clock readings, between
-- transactions that do not touch its row.
use dfsha_telematica.Prelude.{
  ℕ, ◌+◌, ◌<◌, String, ◌≡◌, refl, true, Option, none, some, List, [], ◌∷◌, arith, All, All-imp,
  nat_eq, string_eq, ◌⊎◌, inl, inr, Option-cases,
}
use dfsha_telematica.Errors.{Result, ok, err}
use dfsha_telematica.Leadership.{
  Fencing, Lease, is_named, LeaseTimings, LeaseAction, fencing, decide,
}
use dfsha_telematica.Database.{Database}
use dfsha_telematica.Repositories.LeadershipRows.{free_lease, update_row, released}
use dfsha_telematica.Commands.Leading.{acquire_or_renew, release_leadership}
use dfsha_telematica.Commands.Leading.Attempts.{
  granted, kept, attempt_some, attempt_none, decide-renew, is_named-eq,
}

abbrev fencing? : Option Lease → Option Fencing
fencing? none = none
fencing? (some l) = fencing l

abbrev issued : Result (Option Lease) → Option Fencing
issued (ok g) = fencing? g
issued (err e) = none

-- One transaction: the database before and after, and the fencing that it hands out, if any.
pub data Step (db : Database) (handed : Option Fencing) (db' : Database) : Type 0 where
  attempt :
      (id : String) (t : LeaseTimings) (now : ℕ)
      → handed ≡ issued (acquire_or_renew id t now db).0
      → db' ≡ (acquire_or_renew id t now db).1
      → Step db handed db'
  give_up : (f : Fencing) → handed ≡ none → db' ≡ (release_leadership f db).1 → Step db handed db'
  elsewhere : handed ≡ none → db'.lease ≡ db.lease → Step db handed db'

abbrev pub handing : Option Fencing → List Fencing → List Fencing
handing none fs = fs
handing (some f) fs = f ∷ fs

-- The fencings handed out so far, from a database in which nobody has led yet.
pub data History : List Fencing → Database → Type 0 where
  start : (db : Database) → (db.lease ≡ none) ⊎ (db.lease ≡ some free_lease) → History [] db
  next :
      {fs : List Fencing} {db : Database} (handed : Option Fencing) (db' : Database)
      → History fs db
      → Step db handed db'
      → History (handing handed fs) db'

-- A fencing handed out is older than the row, or is the row's, or was the row's until released.
abbrev pub Covered : Option Lease → Fencing → Type 0
Covered none f = ⊥
Covered (some l) f =
    (f.epoch < l.epoch)
    ⊎ ((f.epoch ≡ l.epoch) × ((l.leader_id ≡ some f.leader_id) ⊎ (l.leader_id ≡ none)))

abbrev SameEpoch : Fencing → Fencing → Type 0
SameEpoch f g = f.epoch ≡ g.epoch → f.leader_id ≡ g.leader_id

abbrev pub Consistent : List Fencing → Type 0
Consistent [] = Unit
Consistent (f ∷ fs) = All (SameEpoch f) fs × Consistent fs

pub record Inv (fs : List Fencing) (row : Option Lease) : Type 0 where
  pub covered : All (Covered row) fs
  consistent : Consistent fs

-- The row moves from `l` to `l'`, and the fencing of `l'` is handed out.
extend :
    (fs : List Fencing) (l l' : Lease) (f : Fencing)
    → fencing l' ≡ some f
    → l'.leader_id ≡ some f.leader_id
    → f.epoch ≡ l'.epoch
    → ((g : Fencing) → Covered (some l) g → Covered (some l') g × SameEpoch f g)
    → Inv fs (some l)
    → Inv (handing (fencing l') fs) (some l')
extend fs l l' f has leads same each inv = rw has (record {
  covered = (
    inr (same, inl leads),
    All-imp (Covered (some l)) (Covered (some l')) fs (λ g c. (each g c).0) inv.covered,
  );
  consistent = (
    All-imp (Covered (some l)) (SameEpoch f) fs (λ g c. (each g c).1) inv.covered,
    inv.consistent,
  );
})

renew-Inv :
    (fs : List Fencing) (l : Lease) (id : String) (t : LeaseTimings) (now : ℕ)
    → is_named l.leader_id id ≡ true
    → Inv fs (some l)
    → Inv
        (handing (fencing? (granted LeaseAction.renew l id t now)) fs)
        (some (kept (granted LeaseAction.renew l id t now) l))
unfolding fencing
renew-Inv fs l id t now own inv =
    let leads = is_named-eq l.leader_id id own in
    extend fs l (record l { renewed_at = some now; expires_at = some (now + t.ttl) })
      (record { leader_id = id; epoch = l.epoch }) (rw leads) leads refl
      (λ g c. (c, λ e. ground arith)) inv

acquire-Inv :
    (fs : List Fencing) (l : Lease) (id : String) (t : LeaseTimings) (now : ℕ)
    → Inv fs (some l)
    → Inv
        (handing (fencing? (granted LeaseAction.acquire l id t now)) fs)
        (granted LeaseAction.acquire l id t now)
unfolding fencing
acquire-Inv fs l id t now inv =
    extend fs l _ (record { leader_id = id; epoch = l.epoch + 1 }) refl refl refl
      (λ g c. (inl (ground arith), λ e. absurd (ground arith))) inv

granted-Inv :
    (fs : List Fencing) (l : Lease) (id : String) (t : LeaseTimings) (now : ℕ) (a : LeaseAction)
    → (a ≡ LeaseAction.renew → is_named l.leader_id id ≡ true)
    → Inv fs (some l)
    → Inv (handing (fencing? (granted a l id t now)) fs) (some (kept (granted a l id t now) l))
granted-Inv fs l id t now LeaseAction.renew own inv = renew-Inv fs l id t now (own refl) inv
granted-Inv fs l id t now LeaseAction.acquire own inv = acquire-Inv fs l id t now inv
granted-Inv fs l id t now LeaseAction.stand_by own inv = inv

-- Nothing has been handed out while there is no row.
none-Inv : (fs : List Fencing) → Inv fs none → fs ≡ []
none-Inv [] inv = refl
none-Inv (f ∷ fs) inv = absurd inv.covered.0

free-Inv : Inv [] (some free_lease)
free-Inv = record { covered = tt; consistent = tt }

attempt-Inv :
    (fs : List Fencing) (db : Database) (id : String) (t : LeaseTimings) (now : ℕ)
    → Inv fs db.lease
    → Inv
        (handing (issued (acquire_or_renew id t now db).0) fs)
        (acquire_or_renew id t now db).1.lease
attempt-Inv fs db id t now inv = elim (Option-cases db.lease) [
  | inl row ↦
      let (answer, after) = attempt_none id t now db row in
      let empty = none-Inv fs (rw row at inv) in
      rw (answer, after, empty) (acquire-Inv [] free_lease id t now free-Inv)
  | inr (l, row) ↦
      let (answer, after) = attempt_some id t now db l row in
      rw (answer, after)
        (granted-Inv fs l id t now (decide l id now) (λ e. (decide-renew l id now e).0)
          (rw row at inv))
]

release-lease :
    (f : Fencing) (db : Database)
    → (release_leadership f db).1.lease ≡ update_row (released f.leader_id f.epoch) db.lease
unfolding release_leadership
release-lease f db = refl

released-Covered :
    (f g : Fencing) (row : Option Lease)
    → Covered row g
    → Covered (update_row (released f.leader_id f.epoch) row) g
released-Covered f g none c = absurd c
released-Covered f g (some l) c = ground arith

Step-Inv :
    {fs : List Fencing} {db : Database} {handed : Option Fencing} {db' : Database}
    → Step db handed db'
    → Inv fs db.lease
    → Inv (handing handed fs) db'.lease
Step-Inv {fs} {db} (attempt id t now handed after) inv =
    rw (handed, after) (attempt-Inv fs db id t now inv)
Step-Inv {fs} {db} (give_up f handed after) inv =
    rw (handed, after, release-lease f db)
      (record {
        covered = All-imp (Covered db.lease) _ fs (λ g. released-Covered f g db.lease) inv.covered;
        consistent = inv.consistent;
      })
Step-Inv {fs} (elsewhere handed same) inv = rw (handed, same) inv

pub History-Inv : {fs : List Fencing} {db : Database} → History fs db → Inv fs db.lease
History-Inv (start db (inl row)) = rw row (record { covered = tt; consistent = tt })
History-Inv (start db (inr row)) = rw row free-Inv
History-Inv (next handed db' h step) = Step-Inv step (History-Inv h)

-- In every history of attempts and releases no two instances are handed the same epoch.
pub History-Consistent : (fs : List Fencing) (db : Database) → History fs db → Consistent fs
History-Consistent fs db h = (History-Inv h).consistent
