-- ===== src/Commands/Writing/Clearing.antt =====
-- control_node/commands/files.py: a commit leaves one visible file of a name in a directory.
use dfsha_telematica.Prelude.{
  trivial, ℕ, String, ◌≡◌, ◌↔◌, sym, ap, ◌∙◌, Bool, true, false, not, ◌&&◌, Option, none, some,
  List, [], ◌∷◌, arith, All, All-imp, find_first, find_first-none, find_first-some, ◌==◌, ==_iff,
  nat_eq, list_eq, string_eq, inl, inr, Bool-cases, Option-cases, if◌then◌else◌,
}
use dfsha_telematica.FilePath.{Text}
use dfsha_telematica.Entities.{File, committed, file_state_eq}
use dfsha_telematica.Repositories.FileRows.{
  has_id, is_named_in, live_by_name, or_writing, with_key, as_deleted,
}
use dfsha_telematica.Commands.Writing.OneVisible.{
  Apart, OneVisible, retired, keyed, published, Demoted-deleted, Demoted-key, Clear, All-update,
  update-Clear, retired-OneVisible, keyed-OneVisible, committed-OneVisible,
}

-- A test that two rows cannot both pass finds the one row that passes it.
pub find-one :
    (q : File → Bool)
    → ((x y : File) → Apart x y → q x ≡ true → q y ≡ true → ⊥)
    → (p : File) → (rows : List File) → find_first q rows ≡ some p
    → OneVisible rows
    → All (λ m. q m ≡ true → m ≡ p) rows
find-one q single p [] e h = tt
find-one q single p (x ∷ rows) e h = elim (Bool-cases (q x)) [
  | inl hit ↦
      let got : some x ≡ some p = rw hit at e in
      let same : x ≡ p = cc in
      ((λ _. same), All-imp (Apart x) _ rows (λ m a qm. absurd (single x m a hit qm)) h.0)
  | inr miss ↦ ((λ hit. absurd (cc)), find-one q single p rows (rw miss at e) h.1)
]

pub is_named_in_iff :
    (directory_id : String) (n : Text) (m : File)
    → (is_named_in directory_id n committed m ≡ true)
      ↔ ((m.directory_id ≡ directory_id) × (m.name ≡ n) × (m.state ≡ committed))
is_named_in_iff directory_id n m =
    ground (arith, ==_iff m.directory_id directory_id, ==_iff m.name n, ==_iff m.state committed)

-- No two rows are visible under one name.
pub is_named_in-single :
    (directory_id : String) (n : Text) (x y : File)
    → Apart x y
    → is_named_in directory_id n committed x ≡ true
    → is_named_in directory_id n committed y ≡ true
    → ⊥
is_named_in-single directory_id n x y a hx hy =
    let (dx, nx, sx) = (is_named_in_iff directory_id n x).0 hx in
    let (dy, ny, sy) = (is_named_in_iff directory_id n y).0 hy in
    a.places (dx ∙ sym dy) (nx ∙ sym ny) sx sy

All-both : (P Q : File → Type 0) (xs : List File) → All P xs → All Q xs → All (λ m. P m × Q m) xs
All-both P Q [] a b = tt
All-both P Q (x ∷ xs) a b = ((a.0, b.0), All-both P Q xs a.1 b.1)

module _ (file : File) (now : ℕ) (rows : List File) where
  abbrev here : File → Bool
  here = is_named_in file.directory_id file.name committed

  abbrev Own : File → Type 0
  Own m = m.id ≡ file.id → m ≡ file

  Own-place :
      (m : File)
      → Own m
      → m.id ≡ file.id
      → (m.directory_id ≡ file.directory_id) × (m.name ≡ file.name)
  Own-place m own e = (ap (λ (f : File). f.directory_id) (own e), ap (λ (f : File). f.name) (own e))

  none-Clear : All Own rows → All (λ m. here m ≡ false) rows → All (Clear file) rows
  none-Clear own free =
      All-imp _ (Clear file) rows
        (λ m c. record {
          itself = Own-place m c.0;
          alone = λ e d n s.
              let held : here m ≡ true =
                (is_named_in_iff file.directory_id file.name m).1 (d, n, s) in
              let not_held = c.1 in absurd (cc);
        })
        (All-both _ _ rows own free)

  -- With the visible file `p` of that name retired, no other row is in the way.
  some-Clear :
      (p : File)
      → here p ≡ true
      → All Own rows
      → All (λ m. here m ≡ true → m ≡ p) rows
      → All (Clear file) (retired (some p) file now rows)
  some-Clear p hit own only =
      let (_, _, pc) = (is_named_in_iff file.directory_id file.name p).0 hit in
      let both = All-both _ _ rows own only in
      elim (Bool-cases (p.id == file.id)) [
        | inl e ↦
            let same = (==_iff p.id file.id).0 e in
            rw e (
              All-imp _ (Clear file) rows
                (λ m c. record {
                  itself = Own-place m c.0;
                  alone = λ ne d n s. ne (
                      ap (λ (f : File). f.id)
                        (c.1 ((is_named_in_iff file.directory_id file.name m).1 (d, n, s)))
                      ∙ same);
                })
                both)
        | inr e ↦
            rw (e, (==_iff p.state committed).1 pc)
              (All-update _ (Clear file) (has_id p.id) (as_deleted now) (λ m c. cleared m c.0 c.1)
                rows both)
      ]
    where
      cleared :
          (m : File)
          → Own m
          → (here m ≡ true → m ≡ p)
          → Clear file (if has_id p.id m then as_deleted now m else m)
      cleared m own only = elim (Bool-cases (has_id p.id m)) [
        | inl e ↦ rw e (record { itself = Own-place m own; alone = λ ne d n s. absurd (cc) })
        | inr e ↦ rw e (record {
          itself = Own-place m own;
          alone = λ ne d n s.
              let same = only ((is_named_in_iff file.directory_id file.name m).1 (d, n, s)) in
              let passes = (==_iff m.id p.id).1 (ap (λ (f : File). f.id) same) in absurd (cc);
        })
      ]

  retired-Clear :
      OneVisible rows
      → find_first (has_id file.id) rows ≡ some file
      → All (Clear file) (retired (live_by_name file.directory_id file.name rows) file now rows)
  retired-Clear h found =
      let own_ =
        find-one (has_id file.id)
          (λ x y a ex ey. a.ids ((==_iff x.id file.id).0 ex ∙ sym ((==_iff y.id file.id).0 ey)))
          file rows found h in
      let own = All-imp _ Own rows (λ m f e. f ((==_iff m.id file.id).1 e)) own_ in
      elim (Option-cases (find_first here rows)) [
        | inl e ↦ rw e (
            any-Clear (or_writing none file.directory_id file.name rows)
              (none-Clear own (find_first-none here rows e)))
        | inr (p, e) ↦
            let hit = (find_first-some (λ x. Unit {0}) here rows p e (trivial rows)).0 in
            rw e (
              some-Clear p hit own
                (find-one here (is_named_in-single file.directory_id file.name) p rows e h))
      ]
    where
      any-Clear :
          (o : Option File) → All (Clear file) rows → All (Clear file) (retired o file now rows)
      any-Clear none c = c
      any-Clear (some p) c = elim (Bool-cases (not (p.id == file.id) && p.state == committed)) [
        | inl e ↦
            rw e (update-Clear file (has_id p.id) (as_deleted now) (Demoted-deleted now) rows c)
        | inr e ↦ rw e c
      ]

-- What `commit_file` writes keeps at most one visible file of a name in a directory.
pub published-OneVisible :
    (file : File) (wrapped_key key_algo : String) (now : ℕ) (rows : List File)
    → OneVisible rows
    → find_first (has_id file.id) rows ≡ some file
    → OneVisible (published file wrapped_key key_algo now rows)
published-OneVisible file wrapped_key key_algo now rows h found =
    let o = live_by_name file.directory_id file.name rows in
    let cleared = retired-Clear file now rows h found in
    let one = retired-OneVisible o file now rows h in
    committed-OneVisible file now (keyed file.id wrapped_key key_algo (retired o file now rows))
      (keyed-Clear (retired o file now rows) cleared)
      (keyed-OneVisible file.id wrapped_key key_algo (retired o file now rows) one)
  where
    keyed-Clear :
        (xs : List File)
        → All (Clear file) xs
        → All (Clear file) (keyed file.id wrapped_key key_algo xs)
    keyed-Clear xs c = elim (Bool-cases (wrapped_key == "")) [
      | inl e ↦ rw e c
      | inr e ↦ rw e (
          update-Clear file (has_id file.id) (with_key wrapped_key key_algo)
            (Demoted-key wrapped_key key_algo) xs c)
    ]
