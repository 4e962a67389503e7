-- ===== src/FilePath.antt =====
-- control_node/domain/path.py: the value object `Path`. A text is the list of its code points.
pub mod Normal
pub mod Ancestors
use Prim.Native.Char.{code}
use dfsha_telematica.Prelude.{
  ℕ, String, Bool, true, false, ◌||◌, not, ◌&&◌, Option, none, some, List, [], ◌∷◌, ◌++◌, ltb,
  length, take, any_of, ◌==◌, nat_eq, list_eq, if◌then◌else◌,
}
use dfsha_telematica.Errors.{Result, ok, err, invalid_path, ◌>>=◌, ◌>>◌, raise_if}

abbrev pub Text : Type 0
Text = List ℕ

-- Code points of a literal, for tests and constants.
abbrev pub codes : String → Text
codes String.[] = []
codes (String.◌∷◌ c s) = code c ∷ codes s

abbrev pub max_name_length : ℕ
max_name_length = 255

abbrev pub separator : ℕ
separator = b'/'

abbrev pub dot_dot : Text
dot_dot = b'.' ∷ b'.' ∷ []

abbrev pub dot : Text
dot = b'.' ∷ []

unfoldable pub is_control : ℕ → Bool
is_control c = ltb c 32 || c == 127

unfoldable pub validate_name : Text → Result Text
unfolding is_control
validate_name name = do
  raise_if (name == []) invalid_path
  raise_if (name == dot_dot) invalid_path
  raise_if (ltb max_name_length (length name)) invalid_path
  raise_if (any_of is_control name) invalid_path
  ok name

pub record FilePath : Type 0 where
  pub segments : List Text

abbrev pub root : FilePath
root = record { segments = [] }

-- `raw.split("/")`: as many chunks as separators, plus one.
abbrev pub prepend : ℕ → List Text → List Text
prepend c [] = (c ∷ []) ∷ []
prepend c (w ∷ ws) = (c ∷ w) ∷ ws

unfoldable pub split : Text → List Text
split [] = [] ∷ []
split (c ∷ cs) = if c == separator then [] ∷ split cs else prepend c (split cs)

unfoldable pub is_noise : Text → Bool
is_noise chunk = chunk == [] || chunk == dot

-- The loop of `parse`: noise is dropped, everything else is validated and appended.
unfoldable pub append_chunks : List Text → List Text → Result (List Text)
append_chunks parts [] = ok parts
append_chunks parts (chunk ∷ chunks) = elim (is_noise chunk) [
  | true ↦ append_chunks parts chunks
  | false ↦ validate_name chunk >>= λ name. append_chunks (parts ++ name ∷ []) chunks
]

abbrev pub is_absolute : Text → Bool
is_absolute [] = false
is_absolute (c ∷ cs) = c == separator

-- The segments that a path starts from: none if it is absolute, else those of `cwd`.
abbrev pub base_of : Bool → Option FilePath → Result (List Text)
base_of true cwd = ok []
base_of false none = err invalid_path
base_of false (some cwd) = ok cwd.segments

unfoldable pub parse : Text → Option FilePath → Result FilePath
parse raw cwd = do
  raise_if (raw == []) invalid_path
  base ← base_of (is_absolute raw) cwd
  parts ← append_chunks base (split raw)
  ok (record { segments = parts })

unfoldable pub is_root : FilePath → Bool
is_root p = p.segments == []

abbrev pub last_or_error : List Text → Result Text
last_or_error [] = err invalid_path
last_or_error (x ∷ []) = ok x
last_or_error (x ∷ y ∷ xs) = last_or_error (y ∷ xs)

abbrev pub but_last : List Text → List Text
but_last [] = []
but_last (x ∷ []) = []
but_last (x ∷ y ∷ xs) = x ∷ but_last (y ∷ xs)

-- The `name` property. The root has none.
unfoldable pub name : FilePath → Result Text
name p = last_or_error p.segments

unfoldable pub parent : FilePath → FilePath
parent p = record { segments = but_last p.segments }

unfoldable pub depth : FilePath → ℕ
depth p = length p.segments

unfoldable pub child : FilePath → Text → Result FilePath
child p n = do n' ← validate_name n; ok (record { segments = p.segments ++ n' ∷ [] })

unfoldable pub is_ancestor_of : FilePath → FilePath → Bool
is_ancestor_of p other =
    ltb (length p.segments) (length other.segments)
    && take (length p.segments) other.segments == p.segments

-- `"/".join(segments)`
abbrev pub join : List Text → Text
join [] = []
join (w ∷ []) = w
join (w ∷ v ∷ ws) = w ++ separator ∷ join (v ∷ ws)

-- `__str__`
unfoldable pub to_text : FilePath → Text
to_text p = separator ∷ join p.segments
