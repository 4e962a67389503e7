-- ===== src/Commands/Writing/OneVisible.antt =====
-- control_node/commands/files.py: the tables that a commit writes, and what its statements keep of
-- the uniqueness of the visible files.
use dfsha_telematica.Prelude.{
  trivial, ℕ, String, ◌≡◌, ◌≢◌, refl, sym, ◌∙◌, Bool, not, ◌&&◌, Option, none, some, List, [], ◌∷◌,
  All, update_where, Pairwise, update-Pairwise, ◌==◌, ==_iff, nat_eq, list_eq, string_eq, inl, inr,
  Bool-cases, if◌then◌else◌,
}
use dfsha_telematica.Entities.{File, committed, file_state_eq}
use dfsha_telematica.Repositories.FileRows.{
  has_id, live_by_name, with_key, as_committed, as_deleted,
}

-- Two rows have two ids, and are not both visible under one name.
pub record Apart (f g : File) : Type 0 where
  pub ids : f.id ≢ g.id
  pub places :
      f.directory_id ≡ g.directory_id → f.name ≡ g.name → f.state ≡ committed → g.state ≢ committed

abbrev pub OneVisible : List File → Type 0
OneVisible = Pairwise Apart

-- The tables that `commit_file` writes, statement by statement.
abbrev pub retired : Option File → File → ℕ → List File → List File
retired none file now rows = rows
retired (some p) file now rows =
    if not (p.id == file.id) && p.state == committed
    then update_where (has_id p.id) (as_deleted now) rows
    else rows

abbrev pub keyed : String → String → String → List File → List File
keyed file_id wrapped_key key_algo rows =
    if not (wrapped_key == "")
    then update_where (has_id file_id) (with_key wrapped_key key_algo) rows
    else rows

abbrev pub published : File → String → String → ℕ → List File → List File
published file wrapped_key key_algo now rows = update_where (has_id file.id) (as_committed now) (
    keyed file.id wrapped_key key_algo
      (retired (live_by_name file.directory_id file.name rows) file now rows))

-- A change of a row that keeps its key and its name, and does not make it visible.
pub record Demoted (f g : File) : Type 0 where
  pub id : g.id ≡ f.id
  pub directory_id : g.directory_id ≡ f.directory_id
  pub name : g.name ≡ f.name
  pub state : g.state ≡ committed → f.state ≡ committed

Demoted-self : (f : File) → Demoted f f
Demoted-self f = record { id = refl; directory_id = refl; name = refl; state = λ h. h }

pub Demoted-deleted : (now : ℕ) (f : File) → Demoted f (as_deleted now f)
Demoted-deleted now f = record {
  id = refl;
  directory_id = refl;
  name = refl;
  state = λ h. absurd (cc);
}

pub Demoted-key :
    (wrapped_key key_algo : String) (f : File) → Demoted f (with_key wrapped_key key_algo f)
Demoted-key wrapped_key key_algo f = record {
  id = refl;
  directory_id = refl;
  name = refl;
  state = λ h. h;
}

Apart-Demoted : {f g f' g' : File} → Demoted f f' → Demoted g g' → Apart f g → Apart f' g'
Apart-Demoted c d a = record {
  ids = λ e. a.ids (sym c.id ∙ e ∙ d.id);
  places = λ e n s t.
      a.places (sym c.directory_id ∙ e ∙ d.directory_id) (sym c.name ∙ n ∙ d.name) (c.state s)
        (d.state t);
}

pub step-Demoted :
    (p : File → Bool) (u : File → File)
    → ((x : File) → Demoted x (u x))
    → (x : File) → Demoted x (if p x then u x else x)
step-Demoted p u d x = elim (Bool-cases (p x)) [
  | inl e ↦ rw e (d x)
  | inr e ↦ rw e (Demoted-self x)
]

pub update-OneVisible :
    (p : File → Bool) (u : File → File)
    → ((x : File) → Demoted x (u x))
    → (xs : List File) → OneVisible xs
    → OneVisible (update_where p u xs)
update-OneVisible p u d xs h =
    update-Pairwise (λ x. Unit {0}) Apart p u
      (λ x y _ _ a. Apart-Demoted (step-Demoted p u d x) (step-Demoted p u d y) a) xs (trivial xs) h

pub retired-OneVisible :
    (o : Option File) (file : File) (now : ℕ) (rows : List File)
    → OneVisible rows
    → OneVisible (retired o file now rows)
retired-OneVisible none file now rows h = h
retired-OneVisible (some p) file now rows h =
    elim (Bool-cases (not (p.id == file.id) && p.state == committed)) [
      | inl e ↦ rw e (update-OneVisible (has_id p.id) (as_deleted now) (Demoted-deleted now) rows h)
      | inr e ↦ rw e h
    ]

pub keyed-OneVisible :
    (file_id wrapped_key key_algo : String) (rows : List File)
    → OneVisible rows
    → OneVisible (keyed file_id wrapped_key key_algo rows)
keyed-OneVisible file_id wrapped_key key_algo rows h = elim (Bool-cases (wrapped_key == "")) [
  | inl e ↦ rw e h
  | inr e ↦ rw e (
      update-OneVisible (has_id file_id) (with_key wrapped_key key_algo)
        (Demoted-key wrapped_key key_algo) rows h)
]

-- What the commit of `file` needs of a row: the row of that id stands in its place, and any other
-- row there is not visible.
pub record Clear (file m : File) : Type 0 where
  pub itself : m.id ≡ file.id → (m.directory_id ≡ file.directory_id) × (m.name ≡ file.name)
  pub alone :
      m.id ≢ file.id → m.directory_id ≡ file.directory_id → m.name ≡ file.name → m.state ≢ committed

Clear-Demoted : {file m n : File} → Demoted m n → Clear file m → Clear file n
Clear-Demoted d c = record {
  itself = λ e. let (x, y) = c.itself (sym d.id ∙ e) in (d.directory_id ∙ x, d.name ∙ y);
  alone = λ e x y s.
      c.alone (λ e'. e (d.id ∙ e')) (sym d.directory_id ∙ x) (sym d.name ∙ y) (d.state s);
}

pub All-update :
    (P Q : File → Type 0) (p : File → Bool) (u : File → File)
    → ((x : File) → P x → Q (if p x then u x else x))
    → (xs : List File) → All P xs
    → All Q (update_where p u xs)
All-update P Q p u f [] h = tt
All-update P Q p u f (x ∷ xs) h = (f x h.0, All-update P Q p u f xs h.1)

pub update-Clear :
    (file : File) (p : File → Bool) (u : File → File)
    → ((x : File) → Demoted x (u x))
    → (xs : List File) → All (Clear file) xs
    → All (Clear file) (update_where p u xs)
update-Clear file p u d xs h =
    All-update (Clear file) (Clear file) p u (λ x. Clear-Demoted (step-Demoted p u d x)) xs h

module _ (file : File) (now : ℕ) where
  committed-Apart :
      (x y : File)
      → Clear file x
      → Clear file y
      → Apart x y
      → Apart
          (if has_id file.id x then as_committed now x else x)
          (if has_id file.id y then as_committed now y else y)
  committed-Apart x y cx cy a = elim (Bool-cases (has_id file.id x)) [
    | inl e ↦
        let ex = (==_iff x.id file.id).0 e in
        elim (Bool-cases (has_id file.id y)) [
          | inl e' ↦ absurd (a.ids (ex ∙ sym ((==_iff y.id file.id).0 e')))
          | inr e' ↦
              rw (e, e')
                (record {
                  ids = a.ids;
                  places = λ d n s.
                      let (px, nx) = cx.itself ex in
                      cy.alone (λ ey. a.ids (ex ∙ sym ey)) (sym d ∙ px) (sym n ∙ nx);
                })
        ]
    | inr e ↦ elim (Bool-cases (has_id file.id y)) [
      | inl e' ↦
          let ey = (==_iff y.id file.id).0 e' in
          let (py, ny) = cy.itself ey in
          rw (e, e')
            (record {
              ids = a.ids;
              places = λ d n s _. cx.alone (λ ex. a.ids (ex ∙ sym ey)) (d ∙ py) (n ∙ ny) s;
            })
      | inr e' ↦ rw (e, e') a
    ]
  ]

  pub committed-OneVisible :
      (rows : List File)
      → All (Clear file) rows
      → OneVisible rows
      → OneVisible (update_where (has_id file.id) (as_committed now) rows)
  committed-OneVisible =
      update-Pairwise (Clear file) Apart (has_id file.id) (as_committed now) committed-Apart
