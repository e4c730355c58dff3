-- ===== src/Common/Sort.antt =====
-- src/common/sort.ts. `allowed` is the test of the white list.
use tpulse_backend.Prelude.{String, Bool, Option, none, some, str_eq, if◌then◌else◌}
use Prim.Native.String.{slice, len}
use text.Mathlib.Text.{starts_with}

pub data Direction : Type 0 where
  asc desc : Direction

pub record SortKey : Type 0 where
  pub field : String
  pub direction : Direction

abbrev pub checked_key : (String → Bool) → Direction → String → Option SortKey
checked_key allowed direction field =
    if allowed field then some (record { field = field; direction = direction }) else none

-- The sign is one byte long, so that `slice(1)` is the text from its second byte on.
unfoldable pub parse_sort : Option String → (String → Bool) → Option SortKey
parse_sort none allowed = none
parse_sort (some sort) allowed =
    if str_eq sort ""
    then none
    else (if starts_with sort "-"
        then checked_key allowed desc (slice sort 1 (len sort))
        else checked_key allowed asc sort)
