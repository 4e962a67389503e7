-- ===== src/Commands/Namespace/Mkdir.antt =====
-- control_node/commands/namespace.py: mkdir.
use dfsha_telematica.Prelude.{
  ℕ, String, ◌≡◌, refl, sym, ap, subst, Bool, some, inl, inr, Bool-cases,
}
use dfsha_telematica.Errors.{Result, ok, err, Result-cases}
use dfsha_telematica.FilePath.{Text, FilePath, parse, is_root}
use dfsha_telematica.Entities.{Directory}
use dfsha_telematica.Acl.{write}
use dfsha_telematica.Session.{Session, commit, continue, ◌>>◌}
use dfsha_telematica.Session.Whole.{Whole, Ends, ends_then}
use dfsha_telematica.Database.{Database}
use dfsha_telematica.Permissions.{Access, require}
use dfsha_telematica.Permissions.Reading.{require-Reads}
use dfsha_telematica.Permissions.Authority.{Authorised}
use dfsha_telematica.Shared.{Scope, resolve_scope}
use dfsha_telematica.Shared.Reading.{resolve_scope-Reads}
use dfsha_telematica.Resolver.{descend}
use dfsha_telematica.Commands.Namespace.{none, make_path, mkdir_in, mkdir}
use dfsha_telematica.Commands.Namespace.WellFormed.{WellFormed}
use dfsha_telematica.Commands.Namespace.Starting.{resolve_scope-IsLive}
use dfsha_telematica.Commands.Namespace.Making.{Fresh, make_path-Made, make_path-WellFormed}

abbrev pub on : Database → Session Database
on db = record { durable = db; working = db }

-- After a successful mkdir: the segments of the path lead somewhere from the directory that the path starts
-- in, which the user may write to.
pub record Created (owner_id : String) (raw_path : Text) (db after : Database) : Type 0 where
  pub path : FilePath
  pub parsed : parse raw_path none ≡ ok path
  pub scope : Scope
  pub start : resolve_scope owner_id path (on db) ≡ (ok scope, on db)
  pub authorised : Authorised owner_id scope.start write db
  pub directory : Directory
  pub leads : descend after.directories path.segments scope.start ≡ some directory

module _ (owner_id : String) (parents : Bool) (now : ℕ) (new_id : ℕ → String) where
  module _ (path : FilePath) (Q : Database → Type 0) where
    committed_path :
        (start : Directory) (s : Session Database)
        → ((r : Result (Unit {0}) × Session Database)
            → make_path owner_id parents now new_id 0 path.segments start s ≡ r
            → r.0 ≡ ok tt
            → Q r.1.working)
        → Ends ((make_path owner_id parents now new_id 0 path.segments start >> commit) s) s Q
    committed_path start s each =
        let m = make_path-Made owner_id parents now new_id 0 path.segments start s in
        go (make_path owner_id parents now new_id 0 path.segments start s) m.durable (each _ refl)
      where
        go :
            (r : Result (Unit {0}) × Session Database)
            → r.1.durable ≡ s.durable
            → (r.0 ≡ ok tt → Q r.1.working)
            → Ends (continue r.0 (λ _. commit) r.1) s Q
        go (ok u, t) e q = inr (refl, q refl)
        go (err x, t) e q = inl (x, refl, e)

    mkdir_in-Ends :
        (s : Session Database)
        → ((scope : Scope) (access : Access)
            → resolve_scope owner_id path s ≡ (ok scope, s)
            → require owner_id scope.start write s ≡ (ok access, s)
            → (r : Result (Unit {0}) × Session Database)
            → make_path owner_id parents now new_id 0 path.segments scope.start s ≡ r
            → r.0 ≡ ok tt
            → Q r.1.working)
        → Ends (mkdir_in owner_id parents now new_id path s) s Q
    mkdir_in-Ends s each =
        ends_then Q (resolve_scope owner_id path) _ s (resolve_scope-Reads owner_id path)
          (λ scope e.
            ends_then Q (require owner_id scope.start write) _ s
              (require-Reads owner_id scope.start write)
              (λ access e'. committed_path scope.start s (each scope access e e')))

  -- mkdir keeps a namespace well-formed, if the ids it draws are new.
  pub mkdir-WellFormed :
      (raw_path : Text) (db : Database)
      → ((i j : ℕ) → new_id i ≡ new_id j → i ≡ j)
      → Fresh new_id 0 db.directories
      → WellFormed db
      → WellFormed (mkdir owner_id raw_path parents now new_id db).1
  unfolding mkdir
  mkdir-WellFormed raw_path db once fresh w = elim (Result-cases (parse raw_path none)) [
    | inr (e, is) ↦ rw is w
    | inl (path, is) ↦ elim (Bool-cases (is_root path)) [
      | inl t ↦ rw (is, t) w
      | inr t ↦
          rw (is, t)
            (kept path (mkdir_in owner_id parents now new_id path (on db)) (
              mkdir_in-Ends path WellFormed (on db) (λ scope access e e' r made h.
                subst (λ x. WellFormed x.1.working) made
                  (make_path-WellFormed owner_id parents now new_id once 0 path.segments scope.start
                    (on db) w (resolve_scope-IsLive owner_id path (on db) scope (ap (λ x. x.0) e))
                    fresh))))
    ]
  ]
    where
      kept :
          (path : FilePath) (r : Result (Unit {0}) × Session Database)
          → Ends r (on db) WellFormed
          → WellFormed r.1.durable
      kept path r (inl (e, _, same)) = subst WellFormed (sym same) w
      kept path r (inr (_, h)) = h
