-- ===== src/Workspaces.antt =====
-- Workspace identifiers, `validate_workspace_id` of analystwatch/workspace.py. The store bound to a
-- workspace is in the modules below.
pub mod Bound
pub mod Calls
pub mod Steps
pub mod Filing
pub mod Untouched
pub mod Frames
pub mod Writes
pub mod Apart
pub mod Separation
pub mod Isolation
use Prim.Native.Char.{Char, code}
use Prim.Native.String as Str
use analyst_watch.Prelude.{
  String, Bool, true, ◌&&◌, ◌||◌, ◌≡◌, refl, eqb, leb, if◌then◌else◌, is_blank_or_padded, arith,
}
use analyst_watch.Result.{Result, ok, err, value_error}

-- `DEFAULT_WORKSPACE_ID`
abbrev pub default_workspace_id : String
default_workspace_id = "local"

-- The class [A-Za-z0-9_.-].
is_workspace_char : Char → Bool
is_workspace_char ch =
    let c = code ch in
    (leb 65 c && leb c 90)
    || (leb 97 c && leb c 122)
    || (leb 48 c && leb c 57)
    || eqb c 95
    || eqb c 46
    || eqb c 45

-- `_WORKSPACE_ID.fullmatch(value)` of a text that is not empty.
all_workspace_chars : String → Bool
all_workspace_chars Str.[] = true
all_workspace_chars (Str.◌∷◌ c s) = is_workspace_char c && all_workspace_chars s

unfoldable pub validate_workspace_id : String → Result String
unfolding is_blank_or_padded is_workspace_char all_workspace_chars
validate_workspace_id value =
    if is_blank_or_padded value
    then err (
        value_error
          "workspace_id must be non-empty, trimmed, and contain only letters, numbers, '.', '_' or '-'")
    else if all_workspace_chars value
    then ok value
    else err (
        value_error
          "workspace_id must be non-empty, trimmed, and contain only letters, numbers, '.', '_' or '-'")

accepts_team : validate_workspace_id "team-1" ≡ ok "team-1"
unfolding validate_workspace_id
accepts_team = refl

-- The validated identifier is the one given.
pub validate_workspace_id-eq : (s t : String) → validate_workspace_id s ≡ ok t → s ≡ t
unfolding validate_workspace_id
validate_workspace_id-eq s t h = ground arith
