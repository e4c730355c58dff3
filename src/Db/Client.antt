-- ===== src/Db/Client.antt =====
-- The Prisma client, which is a third-party package: its queries are a parameter of every model
-- that runs them, and what the code relies on is a record of laws. The contents of a table (the
-- models of prisma/schema.prisma) are the list of its rows, the newest first. Which of several
-- matching rows `findFirst` returns is left open. `create` is told which rows the new one would
-- clash with under the table's unique constraints; `none` is the error P2002 there and P2025 in
-- `update`.
use tpulse_backend.Prelude.{
  ℕ, ◌≡◌, Bool, true, false, not, Option, none, some, List, ◌∷◌, if◌then◌else◌, count, filter, any,
  update_where, All, Elem,
}

pub record Prisma : Type 1 where
  pub find_first : {Row : Type 0} → (Row → Bool) → List Row → Option Row
  pub find_many : {Row : Type 0} → (Row → Bool) → List Row → List Row
  pub count_rows : {Row : Type 0} → (Row → Bool) → List Row → ℕ
  pub create : {Row : Type 0} → (Row → Bool) → Row → List Row → Option (List Row)
  pub update : {Row : Type 0} → (Row → Bool) → (Row → Row) → List Row → Option (List Row)
  pub update_many : {Row : Type 0} → (Row → Bool) → (Row → Row) → List Row → List Row
  pub delete_many : {Row : Type 0} → (Row → Bool) → List Row → List Row

pub record IsPrisma (db : Prisma) : Type 1 where
  pub find_first_match :
      {Row : Type 0} (p : Row → Bool) (t : List Row) (r : Row)
      → db.find_first p t ≡ some r
      → p r ≡ true
  pub find_first_elem :
      {Row : Type 0} (p : Row → Bool) (t : List Row) (r : Row)
      → db.find_first p t ≡ some r
      → Elem r t
  pub find_first_none :
      {Row : Type 0} (p : Row → Bool) (t : List Row)
      → db.find_first p t ≡ none
      → All (λ r. p r ≡ false) t
  pub find_many_rows :
      {Row : Type 0} (p : Row → Bool) (t : List Row) → db.find_many p t ≡ filter p t
  pub count_rows_count :
      {Row : Type 0} (p : Row → Bool) (t : List Row) → db.count_rows p t ≡ count p t
  pub create_rows :
      {Row : Type 0} (clash : Row → Bool) (r : Row) (t : List Row)
      → db.create clash r t ≡ (if any clash t then none else some (r ∷ t))
  pub update_rows :
      {Row : Type 0} (p : Row → Bool) (f : Row → Row) (t : List Row)
      → db.update p f t ≡ (if any p t then some (update_where p f t) else none)
  pub update_many_rows :
      {Row : Type 0} (p : Row → Bool) (f : Row → Row) (t : List Row)
      → db.update_many p f t ≡ update_where p f t
  pub delete_many_rows :
      {Row : Type 0} (p : Row → Bool) (t : List Row)
      → db.delete_many p t ≡ filter (λ r. not (p r)) t
