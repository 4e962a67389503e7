-- ===== src/Permissions/Nearest.antt =====
-- control_node/domain/acl.py: the entry that a grant comes from.
use dfsha_telematica.Prelude.{
  String, ◌≡◌, refl, ap, ◌∙◌, true, ◌&&◌, Option, none, some, List, [], ◌∷◌, arith, In, string_eq,
  ◌⊎◌, inl, inr, Bool-cases, Option-cases,
}
use dfsha_telematica.Acl.{
  AclEntry, Grant, user, group, applies, grant_of, grant_as, improves, best_of, nearest,
}

-- The fold over one directory.
module _ (user_id : String) (user_groups : List String) (directory_id : String) where
  pub record Chosen (es : List AclEntry) (g : Grant) : Type 0 where
    pub entry : AclEntry
    pub held : In entry es
    pub applying : applies user_id user_groups entry ≡ true
    pub granted : entry.permission ≡ g.permission

  grant_of-permission : (e : AclEntry) → e.permission ≡ (grant_of e directory_id).permission
  unfolding grant_of
  grant_of-permission e =
      elim (e.principal_type) as (λ t. e.permission ≡ (grant_as t e directory_id).permission) [
        | user ↦ refl
        | group ↦ refl
      ]

  Chosen-further : (e : AclEntry) (es : List AclEntry) (g : Grant) → Chosen es g → Chosen (e ∷ es) g
  Chosen-further e es g c = record {
    entry = c.entry;
    held = inr c.held;
    applying = c.applying;
    granted = c.granted;
  }

  best_of-Chosen :
      (best : Option Grant) (es : List AclEntry) (g : Grant)
      → best_of user_id user_groups directory_id best es ≡ some g
      → (best ≡ some g) ⊎ Chosen es g
  unfolding best_of
  best_of-Chosen best [] g h = inl h
  best_of-Chosen best (e ∷ es) g h =
      elim (Bool-cases (applies user_id user_groups e && improves best e)) [
        | inr past ↦ elim (best_of-Chosen best es g (rw past at h)) [
          | inl old ↦ inl old
          | inr c ↦ inr (Chosen-further e es g c)
        ]
        | inl takes ↦ elim (best_of-Chosen (some (grant_of e directory_id)) es g (rw takes at h)) [
          | inr c ↦ inr (Chosen-further e es g c)
          | inl now ↦
              let same : grant_of e directory_id ≡ g = cc in
              inr (record {
                entry = e;
                held = inl refl;
                applying = ground (arith, takes);
                granted = grant_of-permission e ∙ ap (λ (x : Grant). x.permission) same;
              })
        ]
      ]

pub record Nearest (user_id : String) (user_groups : List String) (entries : String → List AclEntry)
    (ds : List String) (g : Grant) : Type 0 where
  pub deciding : String
  pub listed : In deciding ds
  pub chosen : Chosen user_id user_groups deciding (entries deciding) g

pub nearest-Nearest :
    (user_id : String) (user_groups : List String) (entries : String → List AclEntry)
    (ds : List String) (g : Grant)
    → nearest user_id user_groups entries ds ≡ some g
    → Nearest user_id user_groups entries ds g
unfolding nearest
nearest-Nearest user_id user_groups entries [] g h = absurd (cc)
nearest-Nearest user_id user_groups entries (d ∷ ds) g h =
    elim (Option-cases (best_of user_id user_groups d none (entries d))) [
      | inr (x, e) ↦
          let got : some x ≡ some g = rw (nearest, e) at h in
          elim (best_of-Chosen user_id user_groups d none (entries d) g (e ∙ got)) [
            | inl bad ↦ absurd (cc)
            | inr c ↦ record { deciding = d; listed = inl refl; chosen = c }
          ]
      | inl e ↦
          let n = nearest-Nearest user_id user_groups entries ds g (rw (nearest, e) at h) in
          record { deciding = n.deciding; listed = inr n.listed; chosen = n.chosen }
    ]
