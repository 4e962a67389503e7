-- ===== src/Permissions/Authority.antt =====
-- control_node/services/permissions.py: whom `require` lets pass.
use mathlib.Core.List.{reverse}
use dfsha_telematica.Prelude.{
  suc, ◌≤◌, String, ◌≡◌, refl, sym, ap, ◌∙◌, subst, true, false, Option, none, some, List, [], map,
  arith, leb→le, All, All-In, In, In-self, keep-In, map-In, All-reverse, keep, length, ◌==◌, ==_iff,
  string_eq, ◌⊎◌, inl, inr, Bool-cases, Option-cases, if◌then◌else◌,
}
use dfsha_telematica.Errors.{ok}
use dfsha_telematica.Entities.{Directory}
use dfsha_telematica.Acl.{
  Permission, rank, AclEntry, Grant, PrincipalType, user, group, mem, applies, applies_to, resolve,
}
use dfsha_telematica.Rows.{AclRow}
use dfsha_telematica.Session.{Session, pure}
use dfsha_telematica.Session.Reading.{Reads-step}
use dfsha_telematica.Database.{Database}
use dfsha_telematica.Repositories.AclRows.{entry_of, rows_for, grouped}
use dfsha_telematica.Permissions.{
  Access, at_least, allows, chain_up, ancestor_chain, groups_if_any, access_of,
  effective_permission, refused, require,
}
use dfsha_telematica.Permissions.Reading.{effective_permission-Reads}
use dfsha_telematica.Permissions.Nearest.{nearest-Nearest}
use dfsha_telematica.Permissions.Above.{
  Within, groups_if_any-ok, groups_if_any-member, chain_up-Within,
}

-- The grant is for the user, or for a group that the user is a member of.
abbrev pub IsFor : PrincipalType → String → String → Database → Type 0
IsFor user principal_id user_id db = principal_id ≡ user_id
IsFor group principal_id user_id db = In (principal_id, user_id) db.group_members

-- A row of the table of grants that gives `user_id` at least `minimum` on `d`.
pub record Granted (user_id : String) (d : Directory) (minimum : Permission) (db : Database)
    : Type 0 where
  pub row : AclRow
  pub held : In row db.acl_entries
  pub covers : Within db.directories row.directory_id d
  pub principal : IsFor row.principal_type row.principal_id user_id db
  pub enough : rank minimum ≤ rank row.permission

abbrev pub Authorised : String → Directory → Permission → Database → Type 0
Authorised user_id d minimum db = (user_id ≡ d.owner_id) ⊎ Granted user_id d minimum db

applies-IsFor :
    (t : PrincipalType) (principal_id user_id : String) (db : Database) (groups : List String)
    → ((g : String) → mem g groups ≡ true → In (g, user_id) db.group_members)
    → applies_to t principal_id user_id groups ≡ true
    → IsFor t principal_id user_id db
applies-IsFor user p u db groups member h = (==_iff p u).0 h
applies-IsFor group p u db groups member h = member p h

module _ (user_id : String) (d : Directory) (minimum : Permission) (s : Session Database) where
  granted-Authorised :
      (chain : List Directory) (groups : List String) (g : Grant)
      → All (λ x. Within s.working.directories x.id d) chain
      → ((x : String) → mem x groups ≡ true → In (x, user_id) s.working.group_members)
      → rank minimum ≤ rank g.permission
      → resolve user_id d.owner_id
          (map (λ (x : Directory). x.id) chain)
          (grouped (rows_for (map (λ (x : Directory). x.id) chain) s.working.acl_entries))
          groups
        ≡ some g
      → Authorised user_id d minimum s.working
  unfolding resolve applies
  granted-Authorised chain groups g within member enough h =
      elim (Bool-cases (user_id == d.owner_id)) [
        | inl own ↦ inl ((==_iff user_id d.owner_id).0 own)
        | inr other ↦
            let ids = map (λ (x : Directory). x.id) chain in
            let entries : String → List AclEntry = grouped (rows_for ids s.working.acl_entries) in
            let n = nearest-Nearest user_id groups entries (reverse ids) g (rw other at h) in
            let listed =
              All-In (λ x. In x ids) n.deciding (reverse ids) (All-reverse _ ids (In-self ids))
                n.listed in
            let (x, e, place) = map-In _ chain n.deciding listed in
            let (row, e', kept) =
              map-In entry_of (keep (λ (r : AclRow). r.directory_id == n.deciding) _) n.chosen.entry
                n.chosen.held in
            let (here_, kept') = keep-In _ _ row kept in
            let (_, held) = keep-In _ s.working.acl_entries row kept' in
            let at = (==_iff row.directory_id n.deciding).0 here_ in
            inr (record {
              row = row;
              held = held;
              covers =
                  subst (λ i. Within s.working.directories i d) (sym (at ∙ e))
                    (All-In _ x chain within place);
              principal =
                  applies-IsFor row.principal_type row.principal_id user_id s.working groups member
                    (ap
                        (λ (y : AclEntry).
                          applies_to y.principal_type y.principal_id user_id groups)
                        (sym e')
                      ∙ n.chosen.applying);
              enough = omega (
                arith,
                enough,
                ap rank (ap (λ (y : AclEntry). y.permission) (sym e') ∙ n.chosen.granted),
              );
            })
      ]

  at_least-some :
      (o : Option Grant)
      → at_least o minimum ≡ true
      → (g : Grant) × (o ≡ some g) × (rank minimum ≤ rank g.permission)
  at_least-some none h = cc
  at_least-some (some g) h = (g, refl, leb→le _ _ h)

  effective-Authorised :
      (a : Access)
      → effective_permission user_id d s ≡ (ok a, s)
      → at_least a.grant minimum ≡ true
      → Authorised user_id d minimum s.working
  unfolding effective_permission ancestor_chain
  effective-Authorised a h enough =
      let rows = s.working.directories in
      elim (Option-cases (chain_up rows (suc (length rows)) d [])) [
        | inl e ↦ let bad = rw e at h in absurd (cc)
        | inr (chain, e) ↦
            let ids = map (λ (x : Directory). x.id) chain in
            let held = rows_for ids s.working.acl_entries in
            let within = chain_up-Within rows d (suc (length rows)) d [] chain (λ x w. w) tt e in
            let (groups, g) = groups_if_any-ok held user_id s in
            let (grant, is, le) = at_least-some a.grant enough in
            let member = groups_if_any-member held user_id groups s (ap (λ r. r.0) g) in
            let answered : access_of user_id d ids held groups ≡ a =
              ok-injective (ap (λ r. r.0) (sym (run chain groups e g) ∙ h)) in
            granted-Authorised chain groups grant within member le
              (ap (λ (x : Access). x.grant) answered ∙ is)
      ]
    where
      ok-injective : {x y : Access} → ok x ≡ ok y → x ≡ y
      ok-injective e = cc

      run :
          (chain : List Directory) (groups : List String)
          → chain_up s.working.directories (suc (length s.working.directories)) d [] ≡ some chain
          → groups_if_any
              (rows_for (map (λ (x : Directory). x.id) chain) s.working.acl_entries)
              user_id
              s
            ≡ (ok groups, s)
          → effective_permission user_id d s ≡ (
            ok (
                access_of user_id d
                  (map (λ (x : Directory). x.id) chain)
                  (rows_for (map (λ (x : Directory). x.id) chain) s.working.acl_entries)
                  groups),
            s,
          )
      run chain groups e g = rw (e, g) refl

  -- Whoever `require` lets pass owns the directory, or the table has a grant of at least what is asked:
  -- on the directory or on one above it, to the user or to a group that the user is a member of.
  pub require-Authorised :
      (a : Access) → (require user_id d minimum s).0 ≡ ok a → Authorised user_id d minimum s.working
  unfolding require
  require-Authorised a h =
      elim (Reads-step (effective_permission user_id d)
        (λ (x : Access). if allows x minimum then pure x else refused x.grant)
        (effective_permission-Reads user_id d) s) [
          | inl (e, _, out) ↦ let bad = sym (ap (λ r. r.0) out) ∙ h in absurd (cc)
          | inr (x, got, out) ↦ elim (Bool-cases (at_least x.grant minimum)) [
            | inl yes_ ↦ effective-Authorised x got yes_
            | inr no_ ↦ absurd (never x no_ (sym (ap (λ r. r.0) out) ∙ h))
          ]
        ]
    where
      never :
          (x : Access)
          → at_least x.grant minimum ≡ false
          → ((if allows x minimum then pure x else refused x.grant) s).0 ≡ ok a
          → ⊥
      never x f e = elim (Option-cases x.grant) [
        | inl n ↦ let bad = rw (f, n) at e in cc
        | inr (g, n) ↦ let bad = rw (f, n) at e in cc
      ]
