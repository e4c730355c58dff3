-- ===== src/Db/Reference.antt =====
-- A client over lists, which shows that the laws can be met and on which the tests run.
use tpulse_backend.Db.Client.{Prisma, IsPrisma}
use tpulse_backend.Prelude.{
  ◌≡◌, refl, Bool, true, false, not, none, some, List, [], ◌∷◌, if◌then◌else◌, count, filter, find,
  any, update_where, All, Elem, arith,
}

abbrev pub list_db : Prisma
list_db = record {
  find_first = λ p t. find p t;
  find_many = λ p t. filter p t;
  count_rows = λ p t. count p t;
  create = λ clash r t. if any clash t then none else some (r ∷ t);
  update = λ p f t. if any p t then some (update_where p f t) else none;
  update_many = λ p f t. update_where p f t;
  delete_many = λ p t. filter (λ r. not (p r)) t;
}

find_match :
    {Row : Type 0} (p : Row → Bool) (t : List Row) (r : Row) → find p t ≡ some r → p r ≡ true
find_match p [] r e = cc
find_match p (x ∷ t) r e = ground (arith, find_match p t r)

find-Elem : {Row : Type 0} (p : Row → Bool) (t : List Row) (r : Row) → find p t ≡ some r → Elem r t
find-Elem p [] r e = cc
find-Elem p (x ∷ t) r e = ground (arith, find-Elem p t r)

find-none :
    {Row : Type 0} (p : Row → Bool) (t : List Row) → find p t ≡ none → All (λ r. p r ≡ false) t
find-none p [] e = tt
find-none p (x ∷ t) e = ground (arith, find-none p t)

pub list_db-IsPrisma : IsPrisma list_db
list_db-IsPrisma = record {
  find_first_match = λ p t r. find_match p t r;
  find_first_elem = λ p t r. find-Elem p t r;
  find_first_none = λ p t. find-none p t;
  find_many_rows = λ p t. refl;
  count_rows_count = λ p t. refl;
  create_rows = λ clash r t. refl;
  update_rows = λ p f t. refl;
  update_many_rows = λ p f t. refl;
  delete_many_rows = λ p t. refl;
}
