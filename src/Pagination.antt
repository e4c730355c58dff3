-- ===== src/Pagination.antt =====
-- src/common/pagination.ts.
use tpulse_backend.Prelude.{ℕ, ◌+◌, ◌-◌, ◌*◌, ◌/◌, List, if◌then◌else◌, ltb}

pub record PagedResult (A : Type 0) : Type 0 where
  pub items : List A
  pub page : ℕ
  pub page_size : ℕ
  pub total_count : ℕ
  pub total_pages : ℕ

-- `Math.ceil(a / b)` for b above 0.
abbrev pub ceil_div : ℕ → ℕ → ℕ
ceil_div a b = (a + (b - 1)) / b

abbrev pub build_paged : {A : Type 0} → List A → (total_count page page_size : ℕ) → PagedResult A
build_paged items total_count page page_size = record {
  items = items;
  page = page;
  page_size = page_size;
  total_count = total_count;
  total_pages = if ltb 0 page_size then ceil_div total_count page_size else 0;
}

-- Pages are counted from 1 (the query's validation refuses 0).
abbrev pub skip_of : (page page_size : ℕ) → ℕ
skip_of page page_size = (page - 1) * page_size
