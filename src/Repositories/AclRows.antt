-- ===== src/Repositories/AclRows.antt =====
-- SqlAclRepository and SqlUserRepository of control_node/repositories/sql.py: users, groups, and
-- the grants on directories. An id that the code draws at random is an argument.
use dfsha_telematica.Prelude.{
  String, Bool, true, false, not, ◌&&◌, Option, List, [], ◌∷◌, ◌++◌, map, leb, keep, find_first,
  any_of, update_where, sorted, ◌==◌, Eq, string_eq, nat_eq, list_eq, ◌≡◌, ◌↔◌, arith,
  if◌then◌else◌,
}
use dfsha_telematica.FilePath.{Text}
use dfsha_telematica.Acl.{AclEntry, PrincipalType, user, group, mem}
use dfsha_telematica.Entities.{User}
use dfsha_telematica.Rows.{Group, AclRow}
use dfsha_telematica.Session.{Exec, gets, modify, state}
use dfsha_telematica.Database.{Database}

abbrev pub principal_type_beq : PrincipalType → PrincipalType → Bool
principal_type_beq user user = true
principal_type_beq group group = true
principal_type_beq _ _ = false

pub principal_type_beq_iff : (a b : PrincipalType) → (principal_type_beq a b ≡ true) ↔ (a ≡ b)
principal_type_beq_iff a b = ground arith

instance abbrev pub principal_type_eq : Eq PrincipalType
principal_type_eq = record { test = principal_type_beq; test_iff = principal_type_beq_iff }

abbrev pub get_user : String → Exec Database (Option User)
get_user user_id = gets (λ db. find_first (λ (u : User). u.id == user_id) db.users)

abbrev pub get_by_username : Text → Exec Database (Option User)
get_by_username username = gets (λ db. find_first (λ (u : User). u.username == username) db.users)

abbrev pub create_group : String → Text → String → Exec Database (Unit {0})
create_group group_id name owner_id = modify (λ db. record db {
  groups = db.groups ++ record { id = group_id; name = name; owner_id = owner_id } ∷ [];
})

abbrev pub find_group : String → Text → Exec Database (Option Group)
find_group owner_id name =
    gets (λ db. find_first (λ (g : Group). g.owner_id == owner_id && g.name == name) db.groups)

abbrev pub is_membership : String → String → String × String → Bool
is_membership group_id user_id (g, u) = g == group_id && u == user_id

-- Adding a member twice is not an error.
abbrev pub add_member : String → String → Exec Database Bool
add_member group_id user_id = state λ db. (
  not (any_of (is_membership group_id user_id) db.group_members),
  record db {
    group_members =
        if any_of (is_membership group_id user_id) db.group_members
        then db.group_members
        else db.group_members ++ (group_id, user_id) ∷ [];
  },
)

abbrev pub remove_member : String → String → Exec Database Bool
remove_member group_id user_id = state λ db. (
  any_of (is_membership group_id user_id) db.group_members,
  record db { group_members = keep (λ m. not (is_membership group_id user_id m)) db.group_members },
)

abbrev pub groups_with : String → List (String × String) → List String
groups_with user_id rows =
    map (λ (m : String × String). m.0) (keep (λ (m : String × String). m.1 == user_id) rows)

abbrev pub groups_of : String → Exec Database (List String)
groups_of user_id = gets (λ db. groups_with user_id db.group_members)

abbrev pub is_grant : String → PrincipalType → String → AclRow → Bool
is_grant directory_id principal_type principal_id r =
    r.directory_id == directory_id
    && r.principal_type == principal_type
    && r.principal_id == principal_id

-- Granting again changes the grant that is there.
abbrev pub granted : AclRow → List AclRow → List AclRow
granted row rows =
    if any_of (is_grant row.directory_id row.principal_type row.principal_id) rows
    then update_where (is_grant row.directory_id row.principal_type row.principal_id) (λ r. row)
        rows
    else rows ++ row ∷ []

abbrev pub grant : AclRow → Exec Database (Unit {0})
grant row = modify (λ db. record db { acl_entries = granted row db.acl_entries })

abbrev pub revoke : String → PrincipalType → String → Exec Database Bool
revoke directory_id principal_type principal_id = state λ db. (
  any_of (is_grant directory_id principal_type principal_id) db.acl_entries,
  record db {
    acl_entries =
        keep (λ r. not (is_grant directory_id principal_type principal_id r)) db.acl_entries;
  },
)

abbrev pub entry_of : AclRow → AclEntry
entry_of r = record {
  directory_id = r.directory_id;
  principal_type = r.principal_type;
  principal_id = r.principal_id;
  permission = r.permission;
}

-- `WHERE directory_id IN (...)`
abbrev pub rows_for : List String → List AclRow → List AclRow
rows_for directory_ids rows = keep (λ (r : AclRow). mem r.directory_id directory_ids) rows

-- The dict that `entries_for` builds of those rows.
abbrev pub grouped : List AclRow → String → List AclEntry
grouped rows directory_id =
    map entry_of (keep (λ (r : AclRow). r.directory_id == directory_id) rows)

abbrev pub entries_for : List String → Exec Database (List AclRow)
entries_for directory_ids = gets (λ db. rows_for directory_ids db.acl_entries)

abbrev pub reaches : PrincipalType → String → String → List String → Bool
reaches user principal_id user_id group_ids = principal_id == user_id
reaches group principal_id user_id group_ids = mem principal_id group_ids

abbrev pub shared_to : String → List String → AclRow → Bool
shared_to user_id group_ids r = reaches r.principal_type r.principal_id user_id group_ids

abbrev pub earlier : AclRow → AclRow → Bool
earlier r s = leb r.granted_at s.granted_at

abbrev pub shared_with : String → List String → Exec Database (List AclRow)
shared_with user_id group_ids =
    gets (λ db. sorted earlier (keep (shared_to user_id group_ids) db.acl_entries))
