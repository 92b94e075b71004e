-- ===== src/ServiceStore/DlqPages.antt =====
-- What a client of `Store.ListDLQ` finds on a page and behind its cursor.
use dependecy_graph_auditor.Prelude.{
  ℕ, suc, ℤ, ◌+◌, ◌≡◌, refl, sym, ap, ◌∙◌, String, str_eq, true, false, Option, none, some, List,
  ◌++◌, map, select_where, take, length, ◌<◌, arith, Bool-cases, ◌⊎◌, inl, inr, page, ordered,
  IsStrictOrder, Sorted, PairwiseApart, PairwiseApart-select_where, Sorted-ordered,
  Sorted-select_where, ordered-select_where, select_where-and, select_where-select_where,
  page_of_Sorted, page-map, Memᴰ-select_where, eq_iff,
}
use mathlib.Core.Option
use mathlib.Core.Option.{some-injective}
use mathlib.Core.List.{map-append}
use dependecy_graph_auditor.ServiceStore.Tables.{DlqRow, Db}
use dependecy_graph_auditor.ServiceStore.Transaction.{Result, ◌>>=◌, done, query, proceed}
use dependecy_graph_auditor.ServiceStore.Cursor.{Formats}
use dependecy_graph_auditor.ServiceStore.Listing.{page_limit, of_result}
use dependecy_graph_auditor.ServiceStore.Walks.{page_limit-positive}
use dependecy_graph_auditor.ServiceStore.DlqListing.{
  Numbers, DlqPage, scan_entry, scanned, scanned_text, dlq_cursor, newer_entry, before_entry,
  of_public_job, listed_entries, next_entry, list_dlq,
}

newer_entry-IsStrictOrder : IsStrictOrder newer_entry
newer_entry-IsStrictOrder = record {
  irreflexive = λ a. ground arith;
  transitive = λ a b c h k. ground arith;
}

before_older :
    (place : Option ℤ) (last : DlqRow)
    → before_entry place last ≡ true
    → (r : DlqRow) → newer_entry last r ≡ true
    → before_entry place r ≡ true
before_older none last e r h = refl
before_older (some (ℤ.pos id)) last e r h = ground arith
before_older (some (ℤ.negsuc id)) last e r h = cc

-- Every dead letter of a public job, the newest first.
abbrev all_entries : Db → List DlqRow
all_entries db = ordered newer_entry (select_where (of_public_job db.jobs) db.dlq)

module _ (db : Db) (distinct : PairwiseApart newer_entry db.dlq) where
  public-PairwiseApart : PairwiseApart newer_entry (select_where (of_public_job db.jobs) db.dlq)
  public-PairwiseApart =
      PairwiseApart-select_where newer_entry (of_public_job db.jobs) db.dlq distinct

  all_entries-Sorted : Sorted newer_entry (all_entries db)
  all_entries-Sorted =
      Sorted-ordered newer_entry newer_entry-IsStrictOrder.transitive _ public-PairwiseApart

  entries_before :
      (place : Option ℤ)
      → listed_entries place db ≡ select_where (before_entry place) (all_entries db)
  entries_before place = rw (select_where-and (of_public_job db.jobs) (before_entry place) db.dlq) (
      ordered-select_where newer_entry newer_entry-IsStrictOrder.transitive (before_entry place)
        (select_where (of_public_job db.jobs) db.dlq) public-PairwiseApart)

  -- The rows after a listed one are those that a query behind it lists.
  entries_after :
      (place : Option ℤ) (last : DlqRow)
      → before_entry place last ≡ true
      → select_where (newer_entry last) (select_where (before_entry place) (all_entries db))
        ≡ select_where (before_entry (some (ℤ.pos last.id))) (all_entries db)
  entries_after place last e =
      select_where-select_where (newer_entry last) (before_entry place) (all_entries db)
        (before_older place last e)

-- No text but the empty one is encoded by the empty text.
encode_text-present :
    (formats : Formats) (text : String)
    → str_eq text "" ≡ false
    → str_eq (formats.encode_text text) "" ≡ false
encode_text-present formats text present =
    elim (Bool-cases (str_eq (formats.encode_text text) "")) [
      | inr e ↦ e
      | inl empty ↦
          let same = (eq_iff (formats.encode_text text) "").0 empty in
          let back =
            sym (formats.decode-encode text) ∙ ap formats.decode_text same ∙ formats.decode_empty in
          cc ((eq_iff text "").1 (some-injective _ _ back))
    ]

pub dlq_cursor-print :
    (formats : Formats) (numbers : Numbers) (n : ℕ)
    → dlq_cursor formats numbers (formats.encode_text (numbers.print n))
      ≡ Result.ok (some (ℤ.pos n))
unfolding dlq_cursor scanned_text scanned
dlq_cursor-print formats numbers n =
    rw
      (
        encode_text-present formats (numbers.print n) (numbers.print-present n),
        formats.decode-encode (numbers.print n),
        numbers.scan-print n,
      )
      refl

-- What `list_dlq` answers, by the page that its query makes.
list_dlq_value :
    (formats : Formats) (numbers : Numbers) (limit : ℤ) (cursor : String) (place : Option ℤ)
    (db : Db) (n : ℕ) (front : List DlqRow) (last : Option DlqRow)
    → page_limit limit ≡ suc n
    → dlq_cursor formats numbers cursor ≡ Result.ok place
    → page (suc n) (take (suc (suc n)) (listed_entries place db)) ≡ (front, last)
    → list_dlq formats numbers limit cursor db
      ≡ Result.ok (
        record {
          entries = map scan_entry front;
          next_cursor = next_entry formats numbers (Option.map scan_entry last);
        },
        db,
      )
unfolding list_dlq of_result done query proceed ◌>>=◌ next_entry
list_dlq_value formats numbers limit cursor place db n front last size start cut =
    let more : suc n + 1 ≡ suc (suc n) = omega arith in
    let rows = take (suc (suc n)) (listed_entries place db) in
    rw (size, start, more, page-map scan_entry (suc n) rows, cut) refl

-- Where the ids of the dead letters are distinct and a cursor decodes, `ListDLQ` answers a page.
-- Without a next cursor it holds all dead letters of public jobs behind the cursor, the newest
-- first. A next cursor decodes again, and the page followed by what is listed behind the next
-- cursor is what is listed behind the cursor; less is listed behind the next cursor than behind the
-- cursor.
pub list_dlq-pages :
    (formats : Formats) (numbers : Numbers) (limit : ℤ) (cursor : String) (place : Option ℤ)
    (db : Db)
    → PairwiseApart newer_entry db.dlq
    → dlq_cursor formats numbers cursor ≡ Result.ok place
    → (p : DlqPage) × (list_dlq formats numbers limit cursor db ≡ Result.ok (p, db))
      × (((p.next_cursor ≡ "") × (p.entries ≡ map scan_entry (listed_entries place db)))
          ⊎ ((str_eq p.next_cursor "" ≡ false)
              × ((next : Option ℤ) × (dlq_cursor formats numbers p.next_cursor ≡ Result.ok next)
                  × (p.entries ++ map scan_entry (listed_entries next db)
                      ≡ map scan_entry (listed_entries place db))
                  × (length (listed_entries next db) < length (listed_entries place db)))))
unfolding next_entry scan_entry
list_dlq-pages formats numbers limit cursor place db distinct start =
    let strict = newer_entry-IsStrictOrder in
    let (n, size) = page_limit-positive limit in
    let same = entries_before db distinct place in
    let sorted = all_entries-Sorted db distinct in
    let rows = select_where (before_entry place) (all_entries db) in
    elim (page_of_Sorted newer_entry strict n rows (Sorted-select_where _ strict _ _ sorted)) [
      | inl whole ↦ (
        _,
        list_dlq_value formats numbers limit cursor place db n rows none size start (rw same whole),
        inl (refl, ap (map scan_entry) (sym same)),
      )
      | inr (last, front, cut, member, back, less) ↦
          let inside = Memᴰ-select_where (before_entry place) _ member in
          let tail =
            entries_after db distinct place last inside.1
            ∙ sym (entries_before db distinct (some (ℤ.pos last.id))) in
          let joined =
            sym (map-append scan_entry front (listed_entries (some (ℤ.pos last.id)) db))
            ∙ ap (map scan_entry) (ap (λ rest. front ++ rest) (sym tail) ∙ back ∙ sym same) in
          let shorter = ap length tail in
          let before = ap length same in
          (
            _,
            list_dlq_value formats numbers limit cursor place db n front (some last) size start
                (rw same cut),
            inr (
              encode_text-present formats _ (numbers.print-present last.id),
              (
                some (ℤ.pos last.id),
                dlq_cursor-print formats numbers last.id,
                joined,
                omega (arith, less, shorter, before),
              ),
            ),
          )
    ]
