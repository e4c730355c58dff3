-- ===== src/Common/SortKeys.antt =====
-- A sort key is read back as it was written.
use tpulse_backend.Prelude.{
  String, ◌≡◌, refl, ap, ◌∙◌, Bool, false, none, some, str_eq, str_append, str_eq_iff,
  if◌then◌else◌, arith, Bool-cases, inl, inr,
}
use Prim.Native.String.{slice, len}
use text.Mathlib.Text.{starts_with}
use text.Mathlib.TextPositions.{starts_with-append, slice-append_right, len-append}
use tpulse_backend.Common.Sort.{Direction, asc, desc, SortKey, checked_key, parse_sort}

-- The query text of a key.
abbrev pub print_field : Direction → String → String
print_field asc field = field
print_field desc field = str_append "-" field

abbrev pub print_sort : SortKey → String
print_sort k = print_field k.direction k.field

signed_full : (f : String) → str_eq (str_append "-" f) "" ≡ false
signed_full f = elim (Bool-cases (str_eq (str_append "-" f) "")) [
  | inl e ↦
      let empty = (str_eq_iff (str_append "-" f) "").0 e in
      let long = len-append "-" f in
      let none_left : len (str_append "-" f) ≡ 0 = ap len empty in
      absurd (omega (arith, long, none_left))
  | inr e ↦ e
]

signed_rest : (f : String) → slice (str_append "-" f) 1 (len (str_append "-" f)) ≡ f
signed_rest f = ap (slice (str_append "-" f) 1) (len-append "-" f) ∙ slice-append_right "-" f

parse-print_field :
    (d : Direction) (f : String) (allowed : String → Bool)
    → str_eq f "" ≡ false
    → starts_with f "-" ≡ false
    → parse_sort (some (print_field d f)) allowed
      ≡ (if allowed f then some (record { field = f; direction = d }) else none)
unfolding parse_sort
parse-print_field asc f allowed full plain = rw (full, plain) refl
parse-print_field desc f allowed full plain =
    ap
      (λ b.
        if b
        then none
        else (if starts_with (str_append "-" f) "-"
            then checked_key allowed desc (slice (str_append "-" f) 1 (len (str_append "-" f)))
            else checked_key allowed asc (str_append "-" f)))
      (signed_full f)
    ∙ ap
        (λ b.
          if b
          then checked_key allowed desc (slice (str_append "-" f) 1 (len (str_append "-" f)))
          else checked_key allowed asc (str_append "-" f))
        (starts_with-append "-" f)
    ∙ ap (checked_key allowed desc) (signed_rest f)

-- A key of the white list is read back as it was written, in either direction, if its field is not
-- empty and does not begin with the sign; and a key that is not on the list is refused.
pub parse-print :
    (k : SortKey) (allowed : String → Bool)
    → str_eq k.field "" ≡ false
    → starts_with k.field "-" ≡ false
    → parse_sort (some (print_sort k)) allowed ≡ (if allowed k.field then some k else none)
parse-print k allowed full plain = parse-print_field k.direction k.field allowed full plain
