-- ===== src/Examples/Tree.antt =====
-- "ana" shares her directory "/docs" with "bob", who may write there.
use dfsha_telematica.Prelude.{
  ℕ, ◌<◌, ◌==◌, String, none, some, [], ◌∷◌, refl, arith, subst, ◌≡◌, ◌≢◌, ==_iff, string_eq,
  if◌then◌else◌, inl, inr, In, sym,
}
use dfsha_telematica.FilePath.{codes}
use dfsha_telematica.Entities.{Directory, File, User}
use dfsha_telematica.Rows.{AclRow}
use dfsha_telematica.Acl.{user, group, read, write}
use dfsha_telematica.Database.{Database}
use dfsha_telematica.Repositories.DirectoryRows.Depth.{IsTree}
use dfsha_telematica.Commands.Namespace.WellFormed.{WellFormed, HasLive, NoClash}
use dfsha_telematica.Examples.{empty_db}
use dfsha_telematica.Examples.Writing.{top, docs, old_version}

abbrev pub home : Directory
home = record {
  id = "home";
  parent_id = none;
  name = [];
  owner_id = "bob";
  created_at = 0;
  deleted_at = none;
}

abbrev pub ana : User
ana = record {
  id = "ana";
  username = codes "ana";
  password_hash = "";
  created_at = 0;
  kdf_salt = "";
}

abbrev pub bob : User
bob = record {
  id = "bob";
  username = codes "bob";
  password_hash = "";
  created_at = 0;
  kdf_salt = "";
}

abbrev pub shared_row : AclRow
shared_row = record {
  directory_id = "docs";
  principal_type = user;
  principal_id = "bob";
  permission = write;
  granted_by = "ana";
  granted_at = 1;
}

-- "bob" made the group, and "ana" gave it a right.
abbrev pub foreign_row : AclRow
foreign_row = record {
  directory_id = "docs";
  principal_type = group;
  principal_id = "g1";
  permission = read;
  granted_by = "bob";
  granted_at = 2;
}

abbrev pub shared_db : Database
shared_db = record empty_db {
  users = ana ∷ bob ∷ [];
  directories = top ∷ docs ∷ home ∷ [];
  files = old_version ∷ [];
  acl_entries = shared_row ∷ foreign_row ∷ [];
  groups = record { id = "g1"; name = codes "team"; owner_id = "bob" } ∷ [];
}

abbrev pub shared_depth : String → ℕ
shared_depth id = if id == "docs" then 1 else 0

pub shared-IsTree : IsTree shared_depth shared_db.directories
shared-IsTree = (
  (omega arith, λ up h. absurd (cc)),
  (
    (
      omega arith,
      λ up h.
          let same : "top" ≡ up = cc in
          subst (λ x. shared_depth x < shared_depth "docs") same (omega arith),
    ),
    ((omega arith, λ up h. absurd (cc)), tt),
  ),
)

other_ids : ◌≢◌ {A = String} "top" "docs"
other_ids h = cc ((==_iff {A = String} "top" "docs").1 h)

unclashed :
    (f : File) (d : Directory) → In f shared_db.files → In d shared_db.directories → NoClash f d
unclashed f d (inl e) (inl e') p n l c =
    absurd (let q : none ≡ some f.directory_id = rw e' at p in cc)
unclashed f d (inl e) (inr (inl e')) p n l c =
    let q : some "top" ≡ some f.directory_id = rw e' at p in
    let r : some "top" ≡ some "docs" = rw e at q in
    let t : ◌≡◌ {A = String} "top" "docs" = cc in absurd (other_ids t)
unclashed f d (inl e) (inr (inr (inl e'))) p n l c =
    absurd (let q : none ≡ some f.directory_id = rw e' at p in cc)
unclashed f d (inl e) (inr (inr (inr i))) p n l c = absurd i
unclashed f d (inr i) j p n l c = absurd i

in_top : HasLive "top" shared_db.directories
in_top = record { row = top; held = inl refl; named = refl; live = refl }

in_docs : HasLive "docs" shared_db.directories
in_docs = record { row = docs; held = inr (inl refl); named = refl; live = refl }

hung_there :
    (d : Directory) (up : String)
    → In d shared_db.directories
    → d.parent_id ≡ some up
    → HasLive up shared_db.directories
hung_there d up (inl e) p = absurd (let q : none ≡ some up = rw e at p in cc)
hung_there d up (inr (inl e)) p =
    let q : some "top" ≡ some up = rw e at p in
    let same : "top" ≡ up = cc in subst (λ x. HasLive x shared_db.directories) same in_top
hung_there d up (inr (inr (inl e))) p = absurd (let q : none ≡ some up = rw e at p in cc)
hung_there d up (inr (inr (inr i))) p = absurd i

filed_there : (f : File) → In f shared_db.files → HasLive f.directory_id shared_db.directories
filed_there f (inl e) =
    subst (λ (g : File). HasLive g.directory_id shared_db.directories) (sym e) in_docs
filed_there f (inr i) = absurd i

pub shared-WellFormed : WellFormed shared_db
shared-WellFormed = record {
  spots = (
    (
      record { ids = other_ids; places = λ up p q n l. cc },
      (
        record {
          ids = λ h. cc ((==_iff {A = String} "top" "home").1 h);
          places = λ up p q n l. cc;
        },
        tt,
      ),
    ),
    (
      (
        record {
          ids = λ h. cc ((==_iff {A = String} "docs" "home").1 h);
          places = λ up p q n l. cc;
        },
        tt,
      ),
      (tt, tt),
    ),
  );
  visible = (tt, tt);
  clear = unclashed;
  hung = λ d up i l p. hung_there d up i p;
  filed = λ f i s. filed_there f i;
}
