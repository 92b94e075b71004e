-- ===== src/ServiceStore/ListingBounds.antt =====
-- How large the pages of `Store.List` are.
use dependecy_graph_auditor.Prelude.{
  ℕ, suc, ◌≤◌, ◌≡◌, refl, sym, ap, ◌∙◌, ℤ, String, Bool, List, length, arith, inl, inr, take, page,
  page-take, length-take, length-map,
}
use dependecy_graph_auditor.Job.{Error}
use dependecy_graph_auditor.ServiceStore.Tables.{Db, Services}
use dependecy_graph_auditor.ServiceStore.Transaction.{
  Result, Result-cases, ok-injective, ◌>>=◌, proceed, fail_with,
}
use dependecy_graph_auditor.ServiceStore.Statements.{scan_service_job}
use dependecy_graph_auditor.ServiceStore.Cursor.{Formats}
use dependecy_graph_auditor.ServiceStore.Listing.{
  ListFilter, ListPage, page_limit, listed, start_cursor, of_result, list,
}
use dependecy_graph_auditor.ServiceStore.Walks.{page_limit-positive, list_value}

page_limit-bounds : (limit : ℤ) → (1 ≤ page_limit limit) × (page_limit limit ≤ 100)
unfolding page_limit
page_limit-bounds (ℤ.pos n) = (ground arith, ground arith)
page_limit-bounds (ℤ.negsuc n) = (omega arith, omega arith)

page-size :
    {A : Type 0} (n : ℕ) (xs : List A) → length ((page (suc n) (take (suc (suc n)) xs)).0) ≤ suc n
page-size n xs = elim (page-take n xs) [
  | inl short ↦ rw (short.1) (short.0)
  | inr (long, (last, found, cut)) ↦
      rw cut (let size = length-take (suc n) xs (omega arith) in omega (arith, size))
]

list_refused :
    (services : Services) (formats : Formats) (ilike : String → String → Bool) (filter : ListFilter)
    (db : Db) (x : Error)
    → start_cursor formats filter.cursor ≡ Result.err x
    → list services formats ilike filter db ≡ Result.err x
unfolding list of_result fail_with proceed ◌>>=◌
list_refused services formats ilike filter db x e = rw e refl

-- A page of the list has at most as many jobs as the limit that is in force, which is between 1 and
-- 100 whatever limit is asked for.
pub list-page_limit :
    (services : Services) (formats : Formats) (ilike : String → String → Bool) (filter : ListFilter)
    (db db' : Db) (found : ListPage)
    → list services formats ilike filter db ≡ Result.ok (found, db')
    → (length found.jobs ≤ page_limit filter.limit)
      × (1 ≤ page_limit filter.limit)
      × (page_limit filter.limit ≤ 100)
list-page_limit services formats ilike filter db db' found e =
    let (n, limit) = page_limit-positive filter.limit in
    let (low, high) = page_limit-bounds filter.limit in
    elim (Result-cases (start_cursor formats filter.cursor)) [
      | inr (x, refused) ↦ cc (list_refused services formats ilike filter db x refused, e)
      | inl (place, start) ↦
          let rows = listed services ilike filter place db.jobs in
          let value =
            list_value services formats ilike filter filter.cursor place db n
              ((page (suc n) (take (suc (suc n)) rows)).0)
              ((page (suc n) (take (suc (suc n)) rows)).1) limit start refl in
          let answer = ap (λ r. r.0.jobs) (ok-injective _ _ (sym value ∙ e)) in
          let size = page-size n rows in
          let converted =
            length-map scan_service_job ((page (suc n) (take (suc (suc n)) rows)).0) in
          let same = ap length answer in (omega (arith, same, converted, size, limit), low, high)
    ]
