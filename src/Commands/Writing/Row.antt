-- ===== src/Commands/Writing/Row.antt =====
-- control_node/commands/files.py: the row of a file after its commit.
use dfsha_telematica.Prelude.{
  ℕ, String, ◌≡◌, refl, ap, ◌∙◌, Bool, not, ◌&&◌, Option, none, some, List, [], ◌∷◌, update_where,
  find_first, ◌==◌, ==_iff, nat_eq, list_eq, string_eq, inl, inr, Bool-cases, if◌then◌else◌,
}
use dfsha_telematica.Entities.{File, committed, file_state_eq}
use dfsha_telematica.Repositories.FileRows.{
  has_id, live_by_name, with_key, as_committed, as_deleted,
}
use dfsha_telematica.Commands.Writing.OneVisible.{retired, keyed, published}

-- What an UPDATE that keeps the test makes of the row that is found.
pub found-update :
    (p q : File → Bool) (u : File → File)
    → ((x : File) → p (if q x then u x else x) ≡ p x)
    → (f : File) → (rows : List File) → find_first p rows ≡ some f
    → find_first p (update_where q u rows) ≡ some (if q f then u f else f)
found-update p q u same f [] h = absurd (cc)
found-update p q u same f (x ∷ rows) h = elim (Bool-cases (p x)) [
  | inl e ↦
      let got : some x ≡ some f = rw e at h in
      let twin : x ≡ f = cc in rw (same x, e) (ap (λ y. some (if q y then u y else y)) twin)
  | inr e ↦ rw (same x, e) (found-update p q u same f rows (rw e at h))
]

-- `g` is the row `f` of the same file, at the same place.
pub record SameFile (f g : File) : Type 0 where
  pub id : g.id ≡ f.id
  pub directory_id : g.directory_id ≡ f.directory_id
  pub name : g.name ≡ f.name
  pub owner_id : g.owner_id ≡ f.owner_id
  pub size : g.size ≡ f.size

abbrev Found : String → List File → File → Type 0
Found file_id rows f = (g : File) × (find_first (has_id file_id) rows ≡ some g) × SameFile f g

SameFile-self : (f : File) → SameFile f f
SameFile-self f = record {
  id = refl;
  directory_id = refl;
  name = refl;
  owner_id = refl;
  size = refl;
}

SameFile-deleted : (now : ℕ) (f : File) → SameFile f (as_deleted now f)
SameFile-deleted now f = record {
  id = refl;
  directory_id = refl;
  name = refl;
  owner_id = refl;
  size = refl;
}

SameFile-committed : (now : ℕ) (f : File) → SameFile f (as_committed now f)
SameFile-committed now f = record {
  id = refl;
  directory_id = refl;
  name = refl;
  owner_id = refl;
  size = refl;
}

SameFile-key :
    (wrapped_key key_algo : String) (f : File) → SameFile f (with_key wrapped_key key_algo f)
SameFile-key wrapped_key key_algo f = record {
  id = refl;
  directory_id = refl;
  name = refl;
  owner_id = refl;
  size = refl;
}

SameFile-trans : {f g h : File} → SameFile f g → SameFile g h → SameFile f h
SameFile-trans a b = record {
  id = b.id ∙ a.id;
  directory_id = b.directory_id ∙ a.directory_id;
  name = b.name ∙ a.name;
  owner_id = b.owner_id ∙ a.owner_id;
  size = b.size ∙ a.size;
}

step-SameFile :
    (q : File → Bool) (u : File → File)
    → ((x : File) → SameFile x (u x))
    → (x : File) → SameFile x (if q x then u x else x)
step-SameFile q u s x = elim (Bool-cases (q x)) [
  | inl e ↦ rw e (s x)
  | inr e ↦ rw e (SameFile-self x)
]

update-Found :
    (file_id : String) (q : File → Bool) (u : File → File)
    → ((x : File) → SameFile x (u x))
    → (f : File) → (rows : List File) → Found file_id rows f
    → Found file_id (update_where q u rows) f
update-Found file_id q u s f rows (g, e, same) = (
  if q g then u g else g,
  found-update (has_id file_id) q u (λ x. ap (λ i. i == file_id) (step-SameFile q u s x).id) g rows
      e,
  SameFile-trans same (step-SameFile q u s g),
)

retired-Found :
    (file_id : String) (o : Option File) (file : File) (now : ℕ) (rows : List File) (f : File)
    → Found file_id rows f
    → Found file_id (retired o file now rows) f
retired-Found file_id none file now rows f h = h
retired-Found file_id (some p) file now rows f h =
    elim (Bool-cases (not (p.id == file.id) && p.state == committed)) [
      | inl e ↦
          rw e (update-Found file_id (has_id p.id) (as_deleted now) (SameFile-deleted now) f rows h)
      | inr e ↦ rw e h
    ]

keyed-Found :
    (file_id wrapped_key key_algo : String) (rows : List File) (f : File)
    → Found file_id rows f
    → Found file_id (keyed file_id wrapped_key key_algo rows) f
keyed-Found file_id wrapped_key key_algo rows f h = elim (Bool-cases (wrapped_key == "")) [
  | inl e ↦ rw e h
  | inr e ↦ rw e (
      update-Found file_id (has_id file_id) (with_key wrapped_key key_algo)
        (SameFile-key wrapped_key key_algo) f rows h)
]

-- The row of the file after the commit.
abbrev pub Visible : List File → ℕ → File → File → Type 0
Visible rows now f g =
    (find_first (has_id f.id) rows ≡ some g)
    × SameFile f g
    × (g.state ≡ committed)
    × (g.committed_at ≡ some now)
    × (g.expires_at ≡ none)

pub published-Visible :
    (f : File) (wrapped_key key_algo : String) (now : ℕ) (rows : List File)
    → find_first (has_id f.id) rows ≡ some f
    → (g : File) × Visible (published f wrapped_key key_algo now rows) now f g
published-Visible f wrapped_key key_algo now rows found =
    let before = retired (live_by_name f.directory_id f.name rows) f now rows in
    let (g, e, same) = keyed-Found f.id wrapped_key key_algo before f (
      retired-Found f.id (live_by_name f.directory_id f.name rows) f now rows f
        (f, found, SameFile-self f)) in
    let hit = (==_iff g.id f.id).1 same.id in
    let there =
      found-update (has_id f.id) (has_id f.id) (as_committed now) (λ x. has_id-kept x) g
        (keyed f.id wrapped_key key_algo before) e in
    (
      as_committed now g,
      (rw hit at there, SameFile-trans same (SameFile-committed now g), refl, refl, refl),
    )
  where
    has_id-kept :
        (x : File) → has_id f.id (if has_id f.id x then as_committed now x else x) ≡ has_id f.id x
    has_id-kept x = elim (Bool-cases (has_id f.id x)) [ inl e ↦ rw e e | inr e ↦ rw e e ]
