-- ===== src/Acl.antt =====
-- control_node/domain/acl.py: permissions, grants, and the one function that resolves them.
pub mod Strongest
pub mod Resolve
use mathlib.Core.List.{reverse}
use dfsha_telematica.Prelude.{
  ℕ, String, Bool, true, ◌&&◌, Option, none, some, List, [], ◌∷◌, ltb, any_of, ◌==◌, string_eq,
  if◌then◌else◌,
}

pub data Permission : Type 0 where
  read write admin : Permission

-- The values of the `IntEnum`: comparisons are comparisons of these.
abbrev pub rank : Permission → ℕ
rank read = 1
rank write = 2
rank admin = 3

pub data PrincipalType : Type 0 where
  user group : PrincipalType

pub record AclEntry : Type 0 where
  pub directory_id : String
  pub principal_type : PrincipalType
  pub principal_id : String
  pub permission : Permission

pub data Source : Type 0 where
  owner_source user_source group_source : Source

pub record Grant : Type 0 where
  pub permission : Permission
  pub source : Source
  pub directory_id : String
  pub principal_id : String

abbrev pub mem : String → List String → Bool
mem x xs = any_of (λ y. y == x) xs

abbrev pub applies_to : PrincipalType → String → String → List String → Bool
applies_to user principal_id user_id user_groups = principal_id == user_id
applies_to group principal_id user_id user_groups = mem principal_id user_groups

-- The test `aplica` of the loop.
unfoldable pub applies : String → List String → AclEntry → Bool
applies user_id user_groups e = applies_to e.principal_type e.principal_id user_id user_groups

abbrev pub grant_as : PrincipalType → AclEntry → String → Grant
grant_as user e directory_id = record {
  permission = e.permission;
  source = user_source;
  directory_id = directory_id;
  principal_id = "";
}
grant_as group e directory_id = record {
  permission = e.permission;
  source = group_source;
  directory_id = directory_id;
  principal_id = e.principal_id;
}

unfoldable pub grant_of : AclEntry → String → Grant
grant_of e directory_id = grant_as e.principal_type e directory_id

-- `mejor is None or entrada.permission > mejor.permission`
abbrev pub improves : Option Grant → AclEntry → Bool
improves none e = true
improves (some g) e = ltb (rank g.permission) (rank e.permission)

-- The inner loop, over the entries of one directory.
unfoldable pub best_of : String → List String → String → Option Grant → List AclEntry → Option Grant
unfolding applies grant_of
best_of user_id user_groups directory_id best [] = best
best_of user_id user_groups directory_id best (e ∷ es) =
    best_of user_id user_groups directory_id
      (if applies user_id user_groups e && improves best e
        then some (grant_of e directory_id)
        else best)
      es

-- The outer loop, over the directories from the most specific one up.
unfoldable pub nearest :
    String → List String → (String → List AclEntry) → List String → Option Grant
unfolding best_of
nearest user_id user_groups entries_by_directory [] = none
nearest user_id user_groups entries_by_directory (d ∷ ds) =
    let above = nearest user_id user_groups entries_by_directory ds in
    elim (best_of user_id user_groups d none (entries_by_directory d)) [
      | some g ↦ some g
      | none ↦ above
    ]

abbrev pub last_or_empty : List String → String
last_or_empty [] = ""
last_or_empty (d ∷ []) = d
last_or_empty (d ∷ e ∷ ds) = last_or_empty (e ∷ ds)

-- `chain` goes from the root down; `reversed(chain)` from the directory asked about up.
unfoldable pub resolve :
    String → String → List String → (String → List AclEntry) → List String → Option Grant
unfolding nearest
resolve user_id owner_id chain entries_by_directory user_groups =
    if user_id == owner_id
    then some (record {
      permission = admin;
      source = owner_source;
      directory_id = last_or_empty chain;
      principal_id = "";
    })
    else nearest user_id user_groups entries_by_directory (reverse chain)

unfoldable pub effective : Option Grant → Option Permission
effective none = none
effective (some g) = some g.permission
