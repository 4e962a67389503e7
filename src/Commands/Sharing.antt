-- ===== src/Commands/Sharing.antt =====
-- control_node/commands/acl.py: groups and grants. The clock is read once in each command; the id of a
-- new group is an argument. Log lines are not modelled.
pub mod Granted
use dfsha_telematica.Prelude.{
  ℕ, String, Bool, true, false, not, ◌&&◌, ◌||◌, Option, none, some, List, [], ◌∷◌, any_of, strip,
  upper, ◌==◌, nat_eq, list_eq, string_eq, if◌then◌else◌,
}
use dfsha_telematica.Errors.{
  Result, ok, err, raise_if, invalid_path, not_found, already_exists, value_error,
}
use dfsha_telematica.FilePath.{Text, FilePath, codes, parse, separator}
use dfsha_telematica.Entities.{User, Directory}
use dfsha_telematica.Rows.{Group, AclRow}
use dfsha_telematica.Acl.{Permission, read, write, admin, PrincipalType, user, group}
use dfsha_telematica.Session.{Exec, pure, raise, lift, with_uow, commit, ◌>>=◌, ◌>>◌}
use dfsha_telematica.Database.{Database}
use dfsha_telematica.Repositories.AclRows
use dfsha_telematica.Rules.{is_nil}
use dfsha_telematica.Reaching.{directory_for, is_some}
use dfsha_telematica.Commands.Namespace.{with_path, refuse, the_directory}

-- `Permission.parse`
unfoldable pub parse_permission : Text → Result Permission
parse_permission text =
    let name = upper (strip text) in
    if name == codes "READ"
    then ok read
    else if name == codes "WRITE"
    then ok write
    else if name == codes "ADMIN"
    then ok admin
    else err value_error

abbrev pub new_group : String → Text → String → Exec Database String
new_group owner_id name group_id = do
  taken ← AclRows.find_group owner_id name
  lift (raise_if (is_some taken) already_exists)
  AclRows.create_group group_id name owner_id
  commit
  pure group_id

unfoldable pub create_group : String → Text → String → Database → Result String × Database
create_group owner_id name group_id =
    if is_nil (strip name) || any_of (λ c. c == separator) (strip name)
    then refuse invalid_path
    else with_uow (new_group owner_id (strip name) group_id)

abbrev pub group_or_fail : Option Group → Exec Database Group
group_or_fail none = raise not_found
group_or_fail (some g) = pure g

abbrev pub user_or_fail : Option User → Exec Database User
user_or_fail none = raise not_found
user_or_fail (some u) = pure u

-- `_grupo_propio`
abbrev pub own_group : String → Text → Exec Database Group
own_group owner_id name = do found ← AclRows.find_group owner_id (strip name); group_or_fail found

abbrev pub named_user : Text → Exec Database User
named_user username = do found ← AclRows.get_by_username (strip username); user_or_fail found

unfoldable pub add_member : String → Text → Text → Database → Result (Unit {0}) × Database
add_member owner_id group_name username = with_uow (do
  g ← own_group owner_id group_name
  u ← named_user username
  added ← AclRows.add_member g.id u.id
  commit)

unfoldable pub remove_member : String → Text → Text → Database → Result (Unit {0}) × Database
remove_member owner_id group_name username = with_uow (do
  g ← own_group owner_id group_name
  u ← named_user username
  removed ← AclRows.remove_member g.id u.id
  commit)

abbrev pub user_principal : Option User → Exec Database (PrincipalType × String)
user_principal none = raise not_found
user_principal (some u) = pure (user, u.id)

abbrev pub group_or_user : Text → Option Group → Exec Database (PrincipalType × String)
group_or_user name (some g) = pure (group, g.id)
group_or_user name none = do found ← AclRows.get_by_username name; user_principal found

-- `_principal`: an own group of that name, else the user.
abbrev pub principal_of : String → Text → Exec Database (PrincipalType × String)
principal_of actor_id name = do
  found ← AclRows.find_group actor_id (strip name)
  group_or_user (strip name) found

abbrev pub is_self : String → PrincipalType × String → Bool
is_self actor_id (user, id) = id == actor_id
is_self actor_id (group, id) = false

abbrev pub grant_row : Directory → PrincipalType × String → Permission → String → ℕ → AclRow
grant_row d (t, id) permission actor_id now = record {
  directory_id = d.id;
  principal_type = t;
  principal_id = id;
  permission = permission;
  granted_by = actor_id;
  granted_at = now;
}

abbrev pub share_on : String → Text → Permission → ℕ → Directory → Exec Database (Unit {0})
share_on actor_id principal permission now d = do
  who ← principal_of actor_id principal
  lift (raise_if (is_self actor_id who) invalid_path)
  AclRows.grant (grant_row d who permission actor_id now)
  commit

abbrev pub share_in : String → Text → Permission → ℕ → FilePath → Exec Database (Unit {0})
share_in actor_id principal permission now path = do
  found ← directory_for actor_id path admin
  d ← the_directory found.directory
  share_on actor_id principal permission now d

abbrev pub with_permission :
    Result Permission
    → (Permission → Database → Result (Unit {0}) × Database)
    → Database
    → Result (Unit {0}) × Database
with_permission (ok p) f db = f p db
with_permission (err e) f db = (err e, db)

unfoldable pub share : String → Text → Text → Text → ℕ → Database → Result (Unit {0}) × Database
share actor_id raw_path principal permission now = with_path (parse raw_path none) (λ path.
    with_permission (parse_permission permission)
      (λ p. with_uow (share_in actor_id principal p now path)))

abbrev pub unshare_on : String → Text → Directory → Exec Database (Unit {0})
unshare_on actor_id principal d = do
  who ← principal_of actor_id principal
  removed ← AclRows.revoke d.id who.0 who.1
  commit

abbrev pub unshare_in : String → Text → FilePath → Exec Database (Unit {0})
unshare_in actor_id principal path = do
  found ← directory_for actor_id path admin
  d ← the_directory found.directory
  unshare_on actor_id principal d

unfoldable pub unshare : String → Text → Text → Database → Result (Unit {0}) × Database
unshare actor_id raw_path principal =
    with_path (parse raw_path none) (λ path. with_uow (unshare_in actor_id principal path))
