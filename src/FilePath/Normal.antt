-- ===== src/FilePath/Normal.antt =====
-- control_node/domain/path.py: which paths `parse` returns, and that it reads back what
-- `__str__` writes.
use mathlib.Core.List.{append-nil, append_assoc}
use dfsha_telematica.Prelude.{
  ℕ, ◌≤◌, ◌≡◌, ◌≢◌, refl, Bool, true, false, Option, none, some, List, [], ◌∷◌, ◌++◌, arith, length,
  any_of, All, All-append, All-imp, ◌==◌, ==_iff, nat_eq, list_eq, inl, inr, Bool-cases, ap, ◌∙◌,
  subst,
}
use dfsha_telematica.Errors.{ok, invalid_path, bind-eq_ok, raise_if}
use dfsha_telematica.FilePath.{
  Text, FilePath, separator, dot, dot_dot, max_name_length, is_control, validate_name, split,
  prepend, is_noise, append_chunks, is_absolute, base_of, parse, join, to_text,
}

-- What a segment of a path may be, in the words of a file system.
pub record IsSegment (w : Text) : Type 0 where
  pub filled : w ≢ []
  pub not_dot : w ≢ dot
  pub not_dot_dot : w ≢ dot_dot
  pub short : length w ≤ max_name_length
  pub printable : any_of is_control w ≡ false
  pub flat : All (λ c. c ≢ separator) w

abbrev pub IsNormal : FilePath → Type 0
IsNormal p = All IsSegment p.segments

abbrev Flat : Text → Type 0
Flat w = All (λ c. c ≢ separator) w

validate_name-eq_ok :
    (w : Text) {v : Text}
    → validate_name w ≡ ok v
    → (v ≡ w) × (w ≢ dot_dot) × (length w ≤ max_name_length) × (any_of is_control w ≡ false)
unfolding validate_name
validate_name-eq_ok w h = ground (arith, ==_iff w [], ==_iff w dot_dot)

pub validate_name_segment : (w : Text) → IsSegment w → validate_name w ≡ ok w
unfolding validate_name
validate_name_segment w s = ground (arith, s.filled, ==_iff w [], ==_iff w dot_dot)

is_noise-eq_false : (w : Text) → is_noise w ≡ false → (w ≢ []) × (w ≢ dot)
unfolding is_noise
is_noise-eq_false w h = ground (arith, ==_iff w [], ==_iff w dot)

is_noise_segment : (w : Text) → IsSegment w → is_noise w ≡ false
unfolding is_noise
is_noise_segment w s = ground (arith, s.filled, ==_iff w [], ==_iff w dot)

IsSegment-validated :
    (w : Text) {v : Text} → Flat w → is_noise w ≡ false → validate_name w ≡ ok v → IsSegment v
IsSegment-validated w flat quiet h =
    let (same, up, short, printable) = validate_name-eq_ok w h in
    let (filled, not_dot) = is_noise-eq_false w quiet in
    rw same (record {
      filled = filled;
      not_dot = not_dot;
      not_dot_dot = up;
      short = short;
      printable = printable;
      flat = flat;
    })

prepend-Flat : (c : ℕ) (ws : List Text) → c ≢ separator → All Flat ws → All Flat (prepend c ws)
prepend-Flat c [] h a = ((h, tt), tt)
prepend-Flat c (w ∷ ws) h a = ((h, a.0), a.1)

split-Flat : (s : Text) → All Flat (split s)
unfolding split
split-Flat [] = (tt, tt)
split-Flat (c ∷ cs) = elim (Bool-cases (c == separator)) [
  | inl e ↦ rw e (tt, split-Flat cs)
  | inr e ↦
      rw e (prepend-Flat c (split cs) (λ q. ground (arith, ==_iff c separator)) (split-Flat cs))
]

append_chunks-All :
    (chunks parts : List Text) {out : List Text}
    → All Flat chunks
    → All IsSegment parts
    → append_chunks parts chunks ≡ ok out
    → All IsSegment out
unfolding append_chunks
append_chunks-All [] parts {out} flat normal h = let same : parts ≡ out = cc in rw same at normal
append_chunks-All (w ∷ ws) parts flat normal h = elim (Bool-cases (is_noise w)) [
  | inl e ↦ append_chunks-All ws parts flat.1 normal (rw (e, append_chunks) at h)
  | inr e ↦
      let (v, valid, rest) =
        bind-eq_ok (validate_name w) (λ n. append_chunks (parts ++ n ∷ []) ws)
          (rw (e, append_chunks) at h) in
      append_chunks-All ws (parts ++ v ∷ []) flat.1
        (All-append IsSegment parts (v ∷ []) normal (IsSegment-validated w flat.0 e valid, tt)) rest
]

split_no_separator : (w : Text) → Flat w → split w ≡ w ∷ []
unfolding split
split_no_separator [] h = refl
split_no_separator (c ∷ cs) h = ground (arith, h.0, ==_iff c separator, split_no_separator cs h.1)

split_separated : (w rest : Text) → Flat w → split (w ++ separator ∷ rest) ≡ w ∷ split rest
unfolding split
split_separated [] rest h = refl
split_separated (c ∷ cs) rest h =
    ground (arith, h.0, ==_iff c separator, split_separated cs rest h.1)

append_chunks-append :
    (parts ws : List Text) → All IsSegment ws → append_chunks parts ws ≡ ok (parts ++ ws)
unfolding append_chunks
append_chunks-append parts [] h = rw append-nil
append_chunks-append parts (w ∷ ws) h =
    rw (append_chunks, is_noise_segment w h.0, validate_name_segment w h.0)
      (append_chunks-append (parts ++ w ∷ []) ws h.1 ∙ ap ok (append_assoc parts (w ∷ []) ws))

split-join : (w : Text) (ws : List Text) → All Flat (w ∷ ws) → split (join (w ∷ ws)) ≡ w ∷ ws
split-join w [] h = split_no_separator w h.0
split-join w (v ∷ ws) h =
    split_separated w (join (v ∷ ws)) h.0 ∙ ap (λ l. w ∷ l) (split-join v ws h.1)

append_chunks-join :
    (ws : List Text) → All IsSegment ws → append_chunks [] (split (join ws)) ≡ ok ws
unfolding append_chunks split is_noise
append_chunks-join [] h = refl
append_chunks-join (w ∷ ws) h =
    rw (split-join w ws (All-imp IsSegment Flat (w ∷ ws) (λ v s. s.flat) h))
      (append_chunks-append [] (w ∷ ws) h)

base_of-All :
    (absolute : Bool) (cwd : Option FilePath) {base : List Text}
    → ((c : FilePath) → cwd ≡ some c → IsNormal c)
    → base_of absolute cwd ≡ ok base
    → All IsSegment base
base_of-All true cwd {base} start h = let same : [] ≡ base = cc in subst (All IsSegment) same tt
base_of-All false none start h = cc
base_of-All false (some c) {base} start h =
    let same : c.segments ≡ base = cc in rw same at (start c refl)

module _ (raw : Text) (cwd : Option FilePath) where
  -- Whatever the client sends, a path that `parse` returns has only segments that a file system
  -- takes: none empty, ".", "..", longer than 255, or with a separator or a control character,
  -- if the working directory it is resolved against has only such segments.
  pub parse-IsNormal :
      (p : FilePath)
      → ((c : FilePath) → cwd ≡ some c → IsNormal c)
      → parse raw cwd ≡ ok p
      → IsNormal p
  unfolding parse
  parse-IsNormal p start h =
      let (_, _, h1) = bind-eq_ok (raise_if (raw == []) invalid_path) _ h in
      let (base, based, h2) = bind-eq_ok (base_of (is_absolute raw) cwd) _ h1 in
      let (parts, walked, h3) = bind-eq_ok (append_chunks base (split raw)) _ h2 in
      let normal =
        append_chunks-All (split raw) base (split-Flat raw)
          (base_of-All (is_absolute raw) cwd start based) walked in
      let same : parts ≡ p.segments = cc in rw same at normal

-- Reading back the text of a path gives the path, from any working directory.
pub parse-to_text :
    (p : FilePath) (cwd : Option FilePath) → IsNormal p → parse (to_text p) cwd ≡ ok p
unfolding parse to_text
parse-to_text p cwd h = unfold split append_chunks is_noise in rw (append_chunks-join p.segments h)
