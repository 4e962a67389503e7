-- ===== src/Commands/Sharing/Granted.antt =====
-- control_node/commands/acl.py: share and unshare.
use dfsha_telematica.Prelude.{
  strip, All-In, ℕ, String, ◌≡◌, ◌≢◌, refl, sym, ap, ◌∙◌, subst, false, not, ◌&&◌, Option, none,
  some, arith, All, In, In-keep, find_first, find_first-In, keep, ◌==◌, ==_iff, string_eq, list_eq,
  nat_eq, inl, inr, Bool-cases, Option-cases,
}
use dfsha_telematica.Errors.{ok, Result-cases}
use dfsha_telematica.FilePath.{Text, FilePath, parse}
use dfsha_telematica.Entities.{User, Directory}
use dfsha_telematica.Rows.{Group, AclRow}
use dfsha_telematica.Acl.{Permission, admin, PrincipalType, user, group}
use dfsha_telematica.Session.Reading.{Reads}
use dfsha_telematica.Session.Whole.{Whole, Ends, ends_then}
use dfsha_telematica.Database.{Database}
use dfsha_telematica.Repositories.AclRows.{is_grant, granted, principal_type_eq}
use dfsha_telematica.Reaching.{directory_for}
use dfsha_telematica.Reaching.Reading.{directory_for-Reads}
use dfsha_telematica.Commands.Namespace.Mkdir.{on}
use dfsha_telematica.Commands.Namespace.Entries.{Open, directory_for-Open}
use dfsha_telematica.Commands.Sharing.{
  parse_permission, principal_of, group_or_user, user_principal, is_self, grant_row, unshare_in,
  unshare,
}

user_principal-Reads : (o : Option User) → Reads (user_principal o)
user_principal-Reads none s = refl
user_principal-Reads (some u) s = refl

group_or_user-Reads : (name : Text) (o : Option Group) → Reads (group_or_user name o)
group_or_user-Reads name (some g) s = refl
group_or_user-Reads name none s = user_principal-Reads _ s

principal_of-Reads : (actor_id : String) (name : Text) → Reads (principal_of actor_id name)
principal_of-Reads actor_id name s = group_or_user-Reads _ _ s

module _ (actor_id : String) (raw_path principal : Text) (db : Database) where
  -- A directory of the tree on which the actor has ADMIN, and whom the name stands for.
  pub record Administered : Type 0 where
    pub path : FilePath
    pub parsed : parse raw_path none ≡ ok path
    pub directory : Directory
    pub open_ : Open actor_id path admin (on db) directory
    pub who : PrincipalType × String
    pub stands_for : principal_of actor_id principal (on db) ≡ (ok who, on db)

  -- After a successful share.
  pub record Shared (permission : Text) (now : ℕ) (after : Database) : Type 0 where
    pub place : Administered
    pub permission_ : Permission
    pub parsed_permission : parse_permission permission ≡ ok permission_
    pub other : is_self actor_id place.who ≡ false
    pub tables : after ≡ record db {
      acl_entries =
          granted (grant_row place.directory place.who permission_ actor_id now) db.acl_entries;
    }

  -- After a successful unshare.
  pub record Revoked (after : Database) : Type 0 where
    pub place : Administered
    pub tables : after ≡ record db {
      acl_entries =
          keep (λ r. not (is_grant place.directory.id place.who.0 place.who.1 r)) db.acl_entries;
    }

  unshare_in-Ends :
      (path : FilePath)
      → parse raw_path none ≡ ok path
      → Ends (unshare_in actor_id principal path (on db)) (on db) Revoked
  unshare_in-Ends path parsed =
      ends_then Revoked (directory_for actor_id path admin) _ (on db)
        (directory_for-Reads actor_id path admin)
        (λ a e.
          let (d, is, o) = directory_for-Open actor_id path admin (on db) a (ap (λ r. r.0) e) in
          rw is (
            ends_then Revoked (principal_of actor_id principal) _ (on db)
              (principal_of-Reads actor_id principal)
              (λ who e'. inr (
                refl,
                record {
                  place = record {
                    path = path;
                    parsed = parsed;
                    directory = d;
                    open_ = o;
                    who = who;
                    stands_for = e';
                  };
                  tables = refl;
                },
              ))))

  pub unshare-Revoked : Whole (unshare actor_id raw_path principal db) db Revoked
  unfolding unshare
  unshare-Revoked = elim (Result-cases (parse raw_path none)) [
    | inr (e, is) ↦ rw is (inl (e, refl, refl))
    | inl (path, is) ↦ rw is (unshare_in-Ends path is)
  ]

  principal-own :
      (who : PrincipalType × String)
      → (principal_of actor_id principal (on db)).0 ≡ ok who
      → who.0 ≡ group
      → (g : Group) × In g db.groups × (g.id ≡ who.1) × (g.owner_id ≡ actor_id)
  principal-own who h k =
      elim (Option-cases (
        find_first (λ (g : Group). g.owner_id == actor_id && g.name == strip principal)
          db.groups)) [
            | inr (g, e) ↦
                let (t, i) =
                  find_first-In (λ (g : Group). g.owner_id == actor_id && g.name == strip principal)
                    db.groups g e in
                let got : ok (group, g.id) ≡ ok who = rw e at h in
                let same : (group, g.id) ≡ who = cc in
                (g, i, ap (λ z. z.1) same, (==_iff g.owner_id actor_id).0 (ground (arith, t)))
            | inl e ↦
                elim (Option-cases
                  (find_first (λ (u : User). u.username == strip principal) db.users)) [
                    | inl e' ↦ absurd (let bad = rw (e, e') at h in cc)
                    | inr (u, e') ↦
                        let got : ok (user, u.id) ≡ ok who = rw (e, e') at h in
                        let same : (user, u.id) ≡ who = cc in
                        absurd (let bad : user ≡ group = ap (λ z. z.0) same ∙ k in cc)
                  ]
          ]

  -- A grant to a group that the actor does not own survives every unshare of the actor, whoever owns the
  -- directory: no name that the actor gives stands for that group.
  pub unshare-keeps :
      (row : AclRow)
      → In row db.acl_entries
      → row.principal_type ≡ group
      → All (λ (g : Group). g.owner_id ≡ actor_id → g.id ≢ row.principal_id) db.groups
      → In row (unshare actor_id raw_path principal db).1.acl_entries
  unshare-keeps row i kind foreign = elim unshare-Revoked [
    | inl (e, _, same) ↦ subst (λ (w : Database). In row w.acl_entries) (sym same) i
    | inr (_, q) ↦
        let p = q.place in
        let stays : is_grant p.directory.id p.who.0 p.who.1 row ≡ false =
          elim (Bool-cases (is_grant p.directory.id p.who.0 p.who.1 row)) [
            | inr f ↦ f
            | inl t ↦
                let type_ : row.principal_type ≡ p.who.0 =
                  (==_iff row.principal_type p.who.0).0 (ground (arith, t)) in
                let id : row.principal_id ≡ p.who.1 =
                  (==_iff row.principal_id p.who.1).0 (ground (arith, t)) in
                let (g, held, named, owned) =
                  principal-own p.who (ap (λ r. r.0) p.stands_for) (sym type_ ∙ kind) in
                absurd (
                  All-In (λ (g : Group). g.owner_id ≡ actor_id → g.id ≢ row.principal_id) g
                    db.groups foreign held owned (named ∙ sym id))
          ] in
        subst (λ (w : Database). In row w.acl_entries) (sym q.tables)
          (In-keep (λ r. not (is_grant p.directory.id p.who.0 p.who.1 r)) db.acl_entries row
            (rw stays refl) i)
  ]
