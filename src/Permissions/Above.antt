-- ===== src/Permissions/Above.antt =====
-- control_node/services/permissions.py: what a chain of directories and a list of groups hold.
use dfsha_telematica.Prelude.{
  ℕ, zero, suc, String, ◌≡◌, refl, sym, ap, ◌∙◌, subst, true, Option, none, some, List, [], ◌∷◌,
  All, In, keep-In, map-In, keep, ◌==◌, ==_iff, string_eq, ◌⊎◌, inl, inr, Bool-cases, Option-cases,
}
use dfsha_telematica.Errors.{ok}
use dfsha_telematica.Entities.{Directory}
use dfsha_telematica.Acl.{mem}
use dfsha_telematica.Rows.{AclRow}
use dfsha_telematica.Session.{Session}
use dfsha_telematica.Database.{Database}
use dfsha_telematica.Repositories.DirectoryRows.{by_id}
use dfsha_telematica.Repositories.AclRows.{groups_with}
use dfsha_telematica.Permissions.{via_parent, chain_up, found_chain, groups_if_any}

-- `a` is the directory `d` or one above it.
pub data Within (rows : List Directory) (a : String) : Directory → Type 0 where
  here : {d : Directory} → a ≡ d.id → Within rows a d
  above :
      {d e : Directory} (up : String)
      → d.parent_id ≡ some up
      → by_id up rows ≡ some e
      → Within rows a e
      → Within rows a d

pub mem-In : (x : String) (xs : List String) → mem x xs ≡ true → In x xs
mem-In x [] h = absurd (cc)
mem-In x (y ∷ ys) h = elim (Bool-cases (y == x)) [
  | inl e ↦ inl (sym ((==_iff y x).0 e))
  | inr e ↦ inr (mem-In x ys (rw e at h))
]

groups_with-In :
    (user_id : String) (rows : List (String × String)) (g : String)
    → mem g (groups_with user_id rows) ≡ true
    → In (g, user_id) rows
groups_with-In user_id rows g h =
    let (m, e, i) = map-In _ (keep _ rows) g (mem-In g (groups_with user_id rows) h) in
    let (is_user, j) = keep-In _ rows m i in
    let same : (g, user_id) ≡ m = λ k. (e k, sym ((==_iff m.1 user_id).0 is_user) k) in
    subst (λ x. In x rows) (sym same) j

pub groups_if_any-ok :
    (rows : List AclRow) (u : String) (t : Session Database)
    → (groups : List String) × (groups_if_any rows u t ≡ (ok groups, t))
groups_if_any-ok [] u t = ([], refl)
groups_if_any-ok (r ∷ rs) u t = (groups_with u t.working.group_members, refl)

pub groups_if_any-member :
    (rows : List AclRow) (user_id : String) (groups : List String) (s : Session Database)
    → (groups_if_any rows user_id s).0 ≡ ok groups
    → (g : String) → mem g groups ≡ true
    → In (g, user_id) s.working.group_members
groups_if_any-member [] user_id groups s e g h =
    let same : [] ≡ groups = cc in absurd (cc (ap (mem g) same))
groups_if_any-member (r ∷ rs) user_id groups s e g h =
    let same : groups_with user_id s.working.group_members ≡ groups = cc in
    groups_with-In user_id s.working.group_members g (ap (mem g) same ∙ h)

pub via_parent-cases :
    (rows collected : List Directory) (next : Directory → Option (List Directory))
    (o : Option String)
    → (via_parent rows collected next o ≡ some collected)
      ⊎ ((up : String) × (parent : Directory) × (o ≡ some up)
          × (by_id up rows ≡ some parent)
          × (via_parent rows collected next o ≡ next parent))
via_parent-cases rows collected next none = inl refl
via_parent-cases rows collected next (some up) = elim (Bool-cases (up == "")) [
  | inl t ↦ inl (rw (via_parent, t) refl)
  | inr f ↦ elim (Option-cases (by_id up rows)) [
    | inl n ↦ inl (rw (via_parent, f, n) refl)
    | inr (p, e) ↦ inr (up, p, refl, e, rw (via_parent, f, e) refl)
  ]
]

-- Every directory of a chain is the one it is for, or above it.
pub chain_up-Within :
    (rows : List Directory) (d : Directory) (fuel : ℕ) (current : Directory)
    (below chain : List Directory)
    → ((a : String) → Within rows a current → Within rows a d)
    → All (λ x. Within rows x.id d) below
    → chain_up rows fuel current below ≡ some chain
    → All (λ x. Within rows x.id d) chain
chain_up-Within rows d zero current below chain up all h = absurd (cc)
chain_up-Within rows d (suc fuel) current below chain up all h =
    let now : All (λ x. Within rows x.id d) (current ∷ below) = (up current.id (here refl), all) in
    elim (via_parent-cases rows (current ∷ below)
      (λ parent. chain_up rows fuel parent (current ∷ below)) current.parent_id) [
        | inl e ↦
            let ended : some (current ∷ below) ≡ some chain = sym e ∙ h in
            let same : current ∷ below ≡ chain = cc in
            subst (All (λ x. Within rows x.id d)) same now
        | inr (p, q, e, n, c) ↦
            chain_up-Within rows d fuel q (current ∷ below) chain (λ a w. up a (above p e n w)) now
              (sym c ∙ h)
      ]

pub found_chain-ok :
    (o : Option (List Directory)) (chain : List Directory) (s : Session Database)
    → (found_chain o s).0 ≡ ok chain
    → o ≡ some chain
found_chain-ok none chain s h = cc
found_chain-ok (some c) chain s h = let same : c ≡ chain = cc in ap some same
