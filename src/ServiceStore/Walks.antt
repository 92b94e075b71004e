-- ===== src/ServiceStore/Walks.antt =====
-- A client that follows the cursors of `Store.List` to the end.
use dependecy_graph_auditor.Prelude.{
  ℕ, zero, suc, ℤ, ◌+◌, ◌<◌, ◌≡◌, refl, sym, ap, ◌∙◌, String, str_eq, Bool, Option, none, some,
  List, ◌++◌, map, ltb, if◌then◌else◌, select_where, length, take, select-All, All-intro, page,
  arith, Bool-cases, inl, inr, IsStrictTotalOrder, Sorted-select_where, page_of_Sorted, page-map,
  Memᴰ-select_where,
}
use mathlib.Core.Option
use mathlib.Core.List.{map-append}
use dependecy_graph_auditor.Job.{Job, Error}
use dependecy_graph_auditor.ServiceStore.Tables.{Row, Db, Services}
use dependecy_graph_auditor.ServiceStore.Transaction.{
  Result, Tx, ◌>>=◌, done, fail_with, query, proceed,
}
use dependecy_graph_auditor.ServiceStore.Statements.{scan_service_job}
use dependecy_graph_auditor.ServiceStore.Identity.{DistinctIds}
use dependecy_graph_auditor.ServiceStore.Behind.{
  all_listed, newer-IsStrictOrder, all_listed-Sorted, listed_behind, behind_behind,
}
use dependecy_graph_auditor.ServiceStore.Cursor.{
  Formats, encode_cursor, decode_cursor-encode_cursor, encode_cursor-present,
}
use dependecy_graph_auditor.ServiceStore.Listing.{
  ListFilter, ListPage, page_limit, passes, newer, behind_cursor, listed, next_cursor, start_cursor,
  list, of_result, counts, count_groups, all_statuses, is_public,
}

-- What a client does with a page: it stops at the empty cursor, and else goes on from there.
unfoldable pub follow_next : (String → Tx (List Job)) → ListPage → Tx (List Job)
unfolding done
follow_next more page =
    if str_eq page.next_cursor ""
    then done page.jobs
    else more page.next_cursor >>= λ rest. done (page.jobs ++ rest)

-- The jobs of all pages from a cursor on; a client that is out of fuel fails.
unfoldable pub follow :
    Services → Formats → (String → String → Bool) → ℕ → ListFilter → String → Tx (List Job)
unfolding follow_next list fail_with
follow services formats ilike zero filter cursor = fail_with Error.unparsed
follow services formats ilike (suc fuel) filter cursor =
    list services formats ilike (record filter { cursor = cursor })
    >>= follow_next (follow services formats ilike fuel filter)

pub page_limit-positive : (limit : ℤ) → (n : ℕ) × (page_limit limit ≡ suc n)
unfolding page_limit
page_limit-positive (ℤ.pos zero) = (49, refl)
page_limit-positive (ℤ.pos (suc n)) = elim (Bool-cases (ltb 100 (suc n))) [
  | inl e ↦ (49, ground (arith, e))
  | inr e ↦ (n, ground (arith, e))
]
page_limit-positive (ℤ.negsuc n) = (49, refl)

-- What `list` answers, by the page that its query makes.
pub list_value :
    (services : Services) (formats : Formats) (ilike : String → String → Bool) (filter : ListFilter)
    (cursor : String) (place : Option (ℕ × String)) (db : Db) (n : ℕ) (front : List Row)
    (last : Option Row)
    → page_limit filter.limit ≡ suc n
    → start_cursor formats cursor ≡ Result.ok place
    → page (suc n) (take (suc (suc n)) (listed services ilike filter place db.jobs)) ≡ (front, last)
    → list services formats ilike (record filter { cursor = cursor }) db
      ≡ Result.ok (
        record {
          jobs = map scan_service_job front;
          next_cursor = next_cursor formats (Option.map scan_service_job last);
          counts = count_groups is_public db.jobs all_statuses;
        },
        db,
      )
unfolding list listed passes of_result done query proceed counts ◌>>=◌ next_cursor count_groups
list_value services formats ilike filter cursor place db n front last limit start cut =
    let more : suc n + 1 ≡ suc (suc n) = omega arith in
    let rows = take (suc (suc n)) (listed services ilike filter place db.jobs) in
    rw (limit, start, more, page-map scan_service_job (suc n) rows, cut) refl

start_cursor-encode_cursor :
    (formats : Formats) (created : ℕ) (id : String)
    → start_cursor formats (encode_cursor formats created id) ≡ Result.ok (some (created, id))
unfolding start_cursor
start_cursor-encode_cursor formats created id =
    rw (encode_cursor-present formats created id, decode_cursor-encode_cursor formats created id)
      refl

module _ (services : Services) (text_order : IsStrictTotalOrder services.text_lt)
    (formats : Formats) (ilike : String → String → Bool) (filter : ListFilter) (db : Db)
    (distinct : DistinctIds db.jobs) where
  -- The rows that a client still has to see.
  abbrev left : Option (ℕ × String) → List Row
  left place =
      select_where (behind_cursor services place) (all_listed services ilike filter db.jobs)

  walk :
      (fuel : ℕ) (cursor : String) (place : Option (ℕ × String))
      → start_cursor formats cursor ≡ Result.ok place
      → length (left place) < fuel
      → follow services formats ilike fuel filter cursor db
        ≡ Result.ok (map scan_service_job (left place), db)
  unfolding follow follow_next next_cursor ◌>>=◌ proceed done scan_service_job
  walk zero cursor place start enough = absurd (omega arith)
  walk (suc fuel) cursor place start enough =
      let strict = newer-IsStrictOrder services text_order in
      let (n, limit) = page_limit-positive filter.limit in
      let same = listed_behind services text_order ilike filter db.jobs distinct place in
      let sorted = all_listed-Sorted services text_order ilike filter db.jobs distinct in
      let value = list_value services formats ilike filter cursor place db n in
      elim (page_of_Sorted (newer services) strict n (left place)
        (Sorted-select_where _ strict _ _ sorted)) [
          | inl whole ↦ rw (value (left place) none limit start (rw same whole)) refl
          | inr (last, front, cut, member, back, less) ↦
              let next = start_cursor-encode_cursor formats last.created_at last.id in
              let inside = Memᴰ-select_where (behind_cursor services place) _ member in
              let tail =
                behind_behind services text_order ilike filter db.jobs distinct place last
                  inside.1 in
              let present = encode_cursor-present formats last.created_at last.id in
              let shorter = ap length tail in
              let rest = walk fuel _ _ next (omega (arith, shorter)) in
              let whole =
                sym (map-append scan_service_job _ _)
                ∙ ap (map scan_service_job) (ap (λ rows. front ++ rows) (sym tail) ∙ back) in
              rw (value front (some last) limit start (rw same cut), present, rest)
                (ap (λ jobs. Result.ok (jobs, db)) whole)
        ]

-- A client that starts without a cursor and follows the cursors of the pages sees, whatever the
-- limit of its pages, every public job that its filter lets through exactly once, the newest first;
-- one page more than there are such jobs is enough. This holds of a table whose ids are distinct,
-- where the database's order of texts is a strict total order.
pub follow-all_listed :
    (services : Services) (formats : Formats) (ilike : String → String → Bool) (filter : ListFilter)
    (db : Db) (fuel : ℕ)
    → IsStrictTotalOrder services.text_lt
    → DistinctIds db.jobs
    → length (all_listed services ilike filter db.jobs) < fuel
    → follow services formats ilike fuel filter "" db
      ≡ Result.ok (map scan_service_job (all_listed services ilike filter db.jobs), db)
unfolding start_cursor behind_cursor
follow-all_listed services formats ilike filter db fuel order distinct enough =
    let rows = all_listed services ilike filter db.jobs in
    let whole : select_where (behind_cursor services none) rows ≡ rows =
      select-All _ rows (All-intro _ rows (λ r. refl)) in
    rw (← whole)
      (walk services order formats ilike filter db distinct fuel "" none refl (rw whole enough))
