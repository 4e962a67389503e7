-- ===== src/Permissions/Reading.antt =====
-- control_node/services/permissions.py only reads.
use dfsha_telematica.Prelude.{String, refl, Option, none, some, List, [], ◌∷◌}
use dfsha_telematica.Entities.{Directory}
use dfsha_telematica.Rows.{AclRow}
use dfsha_telematica.Acl.{Permission, Grant}
use dfsha_telematica.Permissions.{
  ancestor_chain, found_chain, groups_if_any, effective_permission, refused, allows, require,
}
use dfsha_telematica.Session.Reading.{Reads, Reads-if, Reads-then}

found_chain-Reads : (o : Option (List Directory)) → Reads (found_chain o)
found_chain-Reads none s = refl
found_chain-Reads (some c) s = refl

groups_if_any-Reads : (rows : List AclRow) (user_id : String) → Reads (groups_if_any rows user_id)
groups_if_any-Reads [] user_id s = refl
groups_if_any-Reads (r ∷ rs) user_id s = refl

pub ancestor_chain-Reads : (d : Directory) → Reads (ancestor_chain d)
unfolding ancestor_chain
ancestor_chain-Reads d s = found_chain-Reads _ s

pub effective_permission-Reads :
    (user_id : String) (d : Directory) → Reads (effective_permission user_id d)
unfolding effective_permission
effective_permission-Reads user_id d s =
    Reads-then (ancestor_chain d) s _ (ancestor_chain-Reads d) (λ chain s'.
      Reads-then (groups_if_any _ user_id) s' _ (groups_if_any-Reads _ user_id)
        (λ groups s''. refl))

refused-Reads : (o : Option Grant) → Reads (refused o)
refused-Reads none s = refl
refused-Reads (some g) s = refl

pub require-Reads :
    (user_id : String) (d : Directory) (minimum : Permission) → Reads (require user_id d minimum)
unfolding require
require-Reads user_id d minimum s =
    Reads-then (effective_permission user_id d) s _ (effective_permission-Reads user_id d)
      (λ access. Reads-if (allows access minimum) _ _ (λ s'. refl) (refused-Reads access.grant))
