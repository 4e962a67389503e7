-- ===== src/Commands/Namespace/Starting.antt =====
-- control_node/services/shared.py and resolver.py: the directories that paths start in and lead to
-- are live rows of the table.
use dfsha_telematica.Prelude.{
  keep-All, All-imp, String, ◌≡◌, refl, ap, ◌∙◌, subst, Bool, true, not, ◌||◌, Option, none, some,
  List, [], ◌∷◌, arith, All, In, find_first, find_first-In, find_first-some, keep, sorted,
  sorted-All, ◌==◌, string_eq, list_eq, nat_eq, inl, inr, Option-cases,
}
use dfsha_telematica.Errors.{virtual_user, virtual_root, not_found, ok}
use dfsha_telematica.FilePath.{Text, FilePath}
use dfsha_telematica.Entities.{User, Directory}
use dfsha_telematica.Rows.{AclRow}
use dfsha_telematica.Session.{Session}
use dfsha_telematica.Session.Reading.{
  raise_answers, answers_then, answers_if, pure_answers, Answers,
}
use dfsha_telematica.Database.{Database}
use dfsha_telematica.Repositories.DirectoryRows.{
  by_id, has_id, child_of, is_child_of, is_root_of, is_live,
}
use dfsha_telematica.Resolver.{find_directory, descend, resolve_root}
use dfsha_telematica.Shared.{
  Scope, SharedEntry, entry_for_row, collect, shared_entries, own_scope, scope_in, scope_of_owner,
  shared_scope, scope_from, resolve_scope, listed_before, owned_entry, joined, shared_root,
}
use dfsha_telematica.Shared.Reading.{
  collect-Reads, entry_for_row-Reads, resolve_root-Reads, shared_entries-Reads,
}
use dfsha_telematica.Repositories.AclRows.{shared_to, earlier, groups_with}
use dfsha_telematica.Commands.Namespace.WellFormed.{HasLive}

-- A live row of the table.
pub record IsLive (rows : List Directory) (d : Directory) : Type 0 where
  pub held : In d rows
  pub live : d.deleted_at ≡ none

pub IsLive-HasLive : (rows : List Directory) (d : Directory) → IsLive rows d → HasLive d.id rows
IsLive-HasLive rows d l = record { row = d; held = l.held; named = refl; live = l.live }

live-none : (o : Option _) → is_live o ≡ true → o ≡ none
live-none none h = refl
live-none (some t) h = absurd (cc)

pub child_of-IsLive :
    (up : String) (n : Text) (rows : List Directory) (d : Directory)
    → child_of up n rows ≡ some d
    → IsLive rows d
child_of-IsLive up n rows d e =
    let (t, held) = find_first-In (is_child_of up n) rows d e in
    record { held = held; live = live-none d.deleted_at (ground (arith, t)) }

pub descend-IsLive :
    (rows : List Directory) (names : List Text) (start d : Directory)
    → IsLive rows start
    → descend rows names start ≡ some d
    → IsLive rows d
descend-IsLive rows [] start d l e = let same : start ≡ d = cc in subst (IsLive rows) same l
descend-IsLive rows (n ∷ ns) start d l e = elim (Option-cases (child_of start.id n rows)) [
  | inl no_ ↦ let bad = rw (descend, no_) at e in absurd (cc)
  | inr (c, is) ↦
      descend-IsLive rows ns c d (child_of-IsLive start.id n rows c is) (rw (descend, is) at e)
]

-- The start of a path in the user's own tree, and in a tree that is shared.
resolve_root-IsLive :
    (user_id : String) (s : Session Database)
    → Answers (resolve_root user_id) s (IsLive s.working.directories)
unfolding resolve_root
resolve_root-IsLive user_id s d h =
    elim (Option-cases (find_first (is_root_of user_id) s.working.directories)) [
      | inl e ↦ let bad = rw e at h in absurd (cc)
      | inr (root, e) ↦
          let (t, held) = find_first-In (is_root_of user_id) s.working.directories root e in
          let got : ok root ≡ ok d = rw e at h in
          let same : root ≡ d = cc in
          subst (IsLive s.working.directories) same
            (record { held = held; live = live-none root.deleted_at (ground (arith, t)) })
    ]

abbrev EntryLive : Session Database → SharedEntry → Type 0
EntryLive s e = IsLive s.working.directories e.directory

joined-All :
    (P : SharedEntry → Type 0) (xs ys : List SharedEntry)
    → All P xs
    → All P ys
    → All P (joined xs ys)
joined-All P [] ys h k = k
joined-All P (x ∷ xs) ys h k = (h.0, joined-All P xs ys h.1 k)

owned_entry-Live :
    (s : Session Database) (row : AclRow) (d : Directory) (o : Option User)
    → IsLive s.working.directories d
    → All (EntryLive s) (owned_entry row d o)
owned_entry-Live s row d none l = tt
owned_entry-Live s row d (some owner) l = (l, tt)

entry_for_row-Live :
    (user_id : String) (s : Session Database) (row : AclRow) (o : Option Directory)
    → by_id row.directory_id s.working.directories ≡ o
    → Answers (entry_for_row user_id row o) s (All (EntryLive s))
entry_for_row-Live user_id s row none e = pure_answers [] s (All (EntryLive s)) tt
entry_for_row-Live user_id s row (some d) e =
    answers_if (not (is_live d.deleted_at) || d.owner_id == user_id) _ _ s (All (EntryLive s))
      (λ t. pure_answers [] s (All (EntryLive s)) tt)
      (λ t.
        let (_, held) = find_first-In (has_id row.directory_id) s.working.directories d e in
        let live = live-none d.deleted_at (ground (arith, t)) in
        let owner = find_first (λ (u : User). u.id == d.owner_id) s.working.users in
        pure_answers (owned_entry row d owner) s (All (EntryLive s))
          (owned_entry-Live s row d owner (record { held = held; live = live })))

collect-Live :
    (user_id : String) (s : Session Database) (rows : List AclRow)
    → Answers (collect user_id rows) s (All (EntryLive s))
collect-Live user_id s [] = pure_answers [] s (All (EntryLive s)) tt
collect-Live user_id s (row ∷ rows) =
    let there = by_id row.directory_id s.working.directories in
    answers_then (entry_for_row user_id row there) _ s (All (EntryLive s))
      (entry_for_row-Reads user_id row there)
      (λ here e.
        answers_then (collect user_id rows) _ s (All (EntryLive s)) (collect-Reads user_id rows)
          (λ rest e'. pure_answers (joined here rest) s (All (EntryLive s)) (
            joined-All (EntryLive s) here rest
              (entry_for_row-Live user_id s row there refl here (ap (λ r. r.0) e))
              (collect-Live user_id s rows rest (ap (λ r. r.0) e')))))

shared_entries-Live :
    (user_id : String) (s : Session Database)
    → Answers (shared_entries user_id) s (All (EntryLive s))
unfolding shared_entries
shared_entries-Live user_id s =
    let groups = groups_with user_id s.working.group_members in
    let rows = sorted earlier (keep (shared_to user_id groups) s.working.acl_entries) in
    answers_then (collect user_id rows) _ s (All (EntryLive s)) (collect-Reads user_id rows)
      (λ entries e. pure_answers (sorted listed_before entries) s (All (EntryLive s)) (
        sorted-All listed_before (EntryLive s) entries
          (collect-Live user_id s rows entries (ap (λ r. r.0) e))))

abbrev StartLive : Session Database → Scope → Type 0
StartLive s scope = IsLive s.working.directories scope.start

own_scope-Live :
    (user_id : String) (path : FilePath) (s : Session Database)
    → Answers (own_scope user_id path) s (StartLive s)
own_scope-Live user_id path s =
    answers_then (resolve_root user_id) _ s (StartLive s) (resolve_root-Reads user_id) (λ root e.
      pure_answers _ s (StartLive s) (resolve_root-IsLive user_id s root (ap (λ r. r.0) e)))

scope_in-Live :
    (owner_id : String) (username n : Text) (rest : List Text) (s : Session Database)
    (p : SharedEntry → Bool) (es : List SharedEntry)
    → All (EntryLive s) es
    → Answers (scope_in owner_id username n rest (find_first p es)) s (StartLive s)
scope_in-Live owner_id username n rest s p es h = elim (Option-cases (find_first p es)) [
  | inl e ↦ rw e (raise_answers not_found s (StartLive s))
  | inr (x, e) ↦ rw e (pure_answers _ s (StartLive s) (find_first-some (EntryLive s) p es x e h).1)
]

scope_of_owner-Live :
    (user_id : String) (username : Text) (rest : List Text) (o : Option User) (s : Session Database)
    → Answers (scope_of_owner user_id username rest o) s (StartLive s)
scope_of_owner-Live user_id username rest none s = raise_answers not_found s (StartLive s)
scope_of_owner-Live user_id username [] (some owner) s =
    answers_then (shared_entries user_id) _ s (StartLive s) (shared_entries-Reads user_id)
      (λ entries e. raise_answers virtual_user s (StartLive s))
scope_of_owner-Live user_id username (n ∷ rest) (some owner) s =
    answers_then (shared_entries user_id) _ s (StartLive s) (shared_entries-Reads user_id)
      (λ entries e. scope_in-Live owner.id username n rest s _ _ (
        kept_live (λ (x : SharedEntry). x.owner_id == owner.id) entries
          (shared_entries-Live user_id s entries (ap (λ r. r.0) e))))
  where
    kept_live :
        (p : SharedEntry → Bool) (es : List SharedEntry)
        → All (EntryLive s) es
        → All (EntryLive s) (keep p es)
    kept_live p es h =
        All-imp (λ e. (p e ≡ true) × EntryLive s e) (EntryLive s) (keep p es) (λ e k. k.1)
          (keep-All (EntryLive s) p es h)

shared_scope-Live :
    (user_id : String) (rest : List Text) (s : Session Database)
    → Answers (shared_scope user_id rest) s (StartLive s)
shared_scope-Live user_id [] s = raise_answers virtual_root s (StartLive s)
shared_scope-Live user_id (username ∷ rest) s =
    scope_of_owner-Live user_id username rest
      (find_first (λ (u : User). u.username == username) s.working.users) s

scope_from-Live :
    (user_id : String) (path : FilePath) (ss : List Text) (s : Session Database)
    → Answers (scope_from user_id path ss) s (StartLive s)
scope_from-Live user_id path [] s = own_scope-Live user_id path s
scope_from-Live user_id path (n ∷ rest) s =
    answers_if (n == shared_root) _ _ s (StartLive s) (λ _. shared_scope-Live user_id rest s)
      (λ _. own_scope-Live user_id path s)

-- The directory that a path starts in is a live row.
pub resolve_scope-IsLive :
    (user_id : String) (path : FilePath) (s : Session Database)
    → Answers (resolve_scope user_id path) s (λ scope. IsLive s.working.directories scope.start)
unfolding resolve_scope
resolve_scope-IsLive user_id path s = scope_from-Live user_id path path.segments s

abbrev pub FoundLive : Session Database → Option Directory → Type 0
FoundLive s o = (x : Directory) → o ≡ some x → IsLive s.working.directories x

pub descended-IsLive :
    (s : Session Database) (names : List Text) (root : Directory)
    → IsLive s.working.directories root
    → (o : Option Directory) → descend s.working.directories names root ≡ o
    → FoundLive s o
descended-IsLive s names root l o e x is =
    descend-IsLive s.working.directories names root x l (e ∙ is)

pub find_directory-IsLive :
    (user_id : String) (path : FilePath) (s : Session Database)
    → Answers (find_directory user_id path) s (FoundLive s)
unfolding find_directory
find_directory-IsLive user_id path s =
    answers_then (resolve_root user_id) _ s (FoundLive s) (resolve_root-Reads user_id) (λ root e.
      pure_answers (descend s.working.directories path.segments root) s (FoundLive s) (
        descended-IsLive s path.segments root (resolve_root-IsLive user_id s root (ap (λ r. r.0) e))
          _ refl))
