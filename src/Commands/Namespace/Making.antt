-- ===== src/Commands/Namespace/Making.antt =====
-- control_node/commands/namespace.py: the loop of mkdir.
use dfsha_telematica.Prelude.{
  In-append-right, trivial, ℕ, ◌+◌, ◌≤◌, String, ◌≡◌, ◌≢◌, refl, sym, ◌∙◌, Bool, true, not, ◌&&◌,
  none, some, List, [], ◌∷◌, ◌++◌, arith, All, All-append, find_first, find_first-some, ==_iff,
  string_eq, list_eq, nat_eq, inl, inr, Bool-cases, Option-cases,
}
use dfsha_telematica.Errors.{
  Error, Result, ok, err, raise_if, Result-cases, not_found, already_exists,
}
use dfsha_telematica.FilePath.{Text}
use dfsha_telematica.Entities.{Directory, File, committed, holds_name, file_state_eq}
use dfsha_telematica.Rules.{ensure_name_is_free, is_nil}
use dfsha_telematica.Session.{Session}
use dfsha_telematica.Database.{Database}
use dfsha_telematica.Repositories.DirectoryRows.{child_of, is_child_of}
use dfsha_telematica.Repositories.FileRows.{live_by_name, is_named_in}
use dfsha_telematica.Resolver.{descend}
use dfsha_telematica.Commands.Namespace.{new_directory, make_path}
use dfsha_telematica.Commands.Namespace.WellFormed.{
  WellFormed, Free, with_directory, added-WellFormed,
}
use dfsha_telematica.Commands.Namespace.Starting.{IsLive, IsLive-HasLive, child_of-IsLive}

-- The ids that are still to be drawn are in no row.
abbrev pub Fresh : (ℕ → String) → ℕ → List Directory → Type 0
Fresh new_id index rows = (i : ℕ) → index ≤ i → All (λ (e : Directory). e.id ≢ new_id i) rows

-- A name that may be taken is not that of a visible file.
pub name_is_free :
    (up : String) (n : Text) (rows : List File) (now : ℕ)
    → ensure_name_is_free (live_by_name up n rows) now ≡ ok tt
    → find_first (is_named_in up n committed) rows ≡ none
unfolding ensure_name_is_free holds_name
name_is_free up n rows now h = elim (Option-cases (find_first (is_named_in up n committed) rows)) [
  | inl e ↦ e
  | inr (f, e) ↦
      let (t, _) =
        find_first-some (λ x. Unit {0}) (is_named_in up n committed) rows f e (trivial rows) in
      let is : f.state ≡ committed = (==_iff f.state committed).0 (ground (arith, t)) in
      let bad : raise_if (holds_name f now) already_exists ≡ ok tt = rw e at h in
      let worse = rw (holds_name, is) at bad in absurd (cc)
]

find_first-append :
    {A : Type 0} (p : A → Bool) (xs ys : List A) (y : A)
    → find_first p xs ≡ some y
    → find_first p (xs ++ ys) ≡ some y
find_first-append p [] ys y h = absurd (cc)
find_first-append p (x ∷ xs) ys y h = elim (Bool-cases (p x)) [
  | inl e ↦ rw e (rw e at h)
  | inr e ↦ rw e (find_first-append p xs ys y (rw e at h))
]

find_first-new :
    {A : Type 0} (p : A → Bool) (xs : List A) (y : A)
    → find_first p xs ≡ none
    → p y ≡ true
    → find_first p (xs ++ y ∷ []) ≡ some y
find_first-new p [] y h t = rw t refl
find_first-new p (x ∷ xs) y h t = elim (Bool-cases (p x)) [
  | inl e ↦ absurd (let bad = rw e at h in cc)
  | inr e ↦ rw e (find_first-new p xs y (rw e at h) t)
]

module _ (owner_id : String) (parents : Bool) (now : ℕ) (new_id : ℕ → String) where
  -- What the loop does: it does not commit, what there was is still found, and if it does not fail the
  -- names lead somewhere.
  pub record Made (names : List Text) (current : Directory) (s : Session Database)
      (out : Result (Unit {0}) × Session Database) : Type 0 where
    pub durable : out.1.durable ≡ s.durable
    pub found_still :
        (up : String) (n : Text) (d : Directory)
        → child_of up n s.working.directories ≡ some d
        → child_of up n out.1.working.directories ≡ some d
    pub leads :
        out.0 ≡ ok tt → (d : Directory) × (descend out.1.working.directories names current ≡ some d)

  stopped :
      (e : Error) (names : List Text) (current : Directory) (s : Session Database)
      → Made names current s (err e, s)
  stopped e names current s = record {
    durable = refl;
    found_still = λ up n d h. h;
    leads = λ h. absurd (cc);
  }

  below :
      (n : Text) (ns : List Text) (current d : Directory) (s : Session Database)
      (out : Result (Unit {0}) × Session Database)
      → child_of current.id n out.1.working.directories ≡ some d
      → out.0 ≡ ok tt
      → Made ns d s out
      → (x : Directory) × (descend out.1.working.directories (n ∷ ns) current ≡ some x)
  below n ns current d s out e h m = let (x, is) = m.leads h in (x, rw (descend, e) is)

  pub make_path-Made :
      (index : ℕ) (names : List Text) (current : Directory) (s : Session Database)
      → Made names current s (make_path owner_id parents now new_id index names current s)
  make_path-Made index [] current s = record {
    durable = refl;
    found_still = λ up n d h. h;
    leads = λ h. (current, refl);
  }
  make_path-Made index (n ∷ ns) current s =
      elim (Option-cases (child_of current.id n s.working.directories)) [
        | inr (d, e) ↦ rw e (elim (Bool-cases (is_nil ns && not parents)) [
          | inl t ↦ rw t (stopped already_exists (n ∷ ns) current s)
          | inr t ↦
              let m = make_path-Made (index + 1) ns d s in
              rw t (record {
                durable = m.durable;
                found_still = m.found_still;
                leads = λ h. below n ns current d s _ (m.found_still current.id n d e) h m;
              })
        ])
        | inl e ↦ rw e (elim (Bool-cases (not (is_nil ns) && not parents)) [
          | inl t ↦ rw t (stopped not_found (n ∷ ns) current s)
          | inr t ↦
              rw t
                (elim (Result-cases
                  (ensure_name_is_free (live_by_name current.id n s.working.files) now)) [
                    | inr (x, is) ↦ rw is (stopped x (n ∷ ns) current s)
                    | inl (u, is) ↦ rw is (
                        added n ns current s
                          (new_directory (new_id index) current.id n owner_id now) _ refl refl refl
                          e
                          (make_path-Made (index + 1) ns
                            (new_directory (new_id index) current.id n owner_id now)
                            (record s {
                              working =
                                  with_directory
                                    (new_directory (new_id index) current.id n owner_id now)
                                    s.working;
                            })))
                  ])
        ])
      ]
    where
      added :
          (n : Text) (ns : List Text) (current : Directory) (s : Session Database) (d : Directory)
          (out : Result (Unit {0}) × Session Database)
          → d.parent_id ≡ some current.id
          → d.name ≡ n
          → d.deleted_at ≡ none
          → child_of current.id n s.working.directories ≡ none
          → Made ns d (record s { working = with_directory d s.working }) out
          → Made (n ∷ ns) current s out
      added n ns current s d out up named live e m = record {
        durable = m.durable;
        found_still = λ p x c h.
            m.found_still p x c
              (find_first-append (is_child_of p x) s.working.directories (d ∷ []) c h);
        leads = λ h.
            let is : is_child_of current.id n d ≡ true =
              rw (up, named, live) (ground (arith, ==_iff current.id current.id, ==_iff n n)) in
            let there =
              m.found_still current.id n d
                (find_first-new (is_child_of current.id n) s.working.directories d e is) in
            below n ns current d (record s { working = with_directory d s.working }) out there h m;
      }

  Fresh-added :
      (index : ℕ) (d : Directory) (rows : List Directory)
      → ((i j : ℕ) → new_id i ≡ new_id j → i ≡ j)
      → d.id ≡ new_id index
      → Fresh new_id index rows
      → Fresh new_id (index + 1) (rows ++ d ∷ [])
  Fresh-added index d rows once e fresh i le =
      All-append (λ (x : Directory). x.id ≢ new_id i) rows (d ∷ []) (fresh i (omega (arith, le)))
        ((λ same. let bad = once index i (sym e ∙ same) in omega (arith, bad, le)), tt)

  -- The loop keeps a namespace well-formed.
  pub make_path-WellFormed :
      ((i j : ℕ) → new_id i ≡ new_id j → i ≡ j)
      → (index : ℕ) (names : List Text) (current : Directory) (s : Session Database)
      → WellFormed s.working
      → IsLive s.working.directories current
      → Fresh new_id index s.working.directories
      → WellFormed (make_path owner_id parents now new_id index names current s).1.working
  make_path-WellFormed once index [] current s w l fresh = w
  make_path-WellFormed once index (n ∷ ns) current s w l fresh =
      elim (Option-cases (child_of current.id n s.working.directories)) [
        | inr (d, e) ↦ rw e (elim (Bool-cases (is_nil ns && not parents)) [
          | inl t ↦ rw t w
          | inr t ↦ rw t (
              make_path-WellFormed once (index + 1) ns d s w
                (child_of-IsLive current.id n s.working.directories d e)
                (λ i le. fresh i (omega (arith, le))))
        ])
        | inl e ↦ rw e (elim (Bool-cases (not (is_nil ns) && not parents)) [
          | inl t ↦ rw t w
          | inr t ↦
              rw t
                (elim (Result-cases
                  (ensure_name_is_free (live_by_name current.id n s.working.files) now)) [
                    | inr (x, is) ↦ rw is w
                    | inl (u, is) ↦
                        let d = new_directory (new_id index) current.id n owner_id now in
                        let s' : Session Database = record s {
                          working = with_directory d s.working;
                        } in
                        let free : Free current.id n s.working = record {
                          there = IsLive-HasLive s.working.directories current l;
                          no_directory = e;
                          no_file = name_is_free current.id n s.working.files now is;
                        } in
                        rw is (
                          make_path-WellFormed once (index + 1) ns d s'
                            (added-WellFormed d current.id s.working w free
                              (fresh index (omega arith)) refl)
                            (record {
                              held = In-append-right d s.working.directories (d ∷ []) (inl refl);
                              live = refl;
                            })
                            (Fresh-added index d s.working.directories once refl fresh))
                  ])
        ])
      ]
