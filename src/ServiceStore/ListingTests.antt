-- ===== src/ServiceStore/ListingTests.antt =====
-- The theorems about the list of jobs, at three jobs that are read two at a time.
use Prim.Native.String.append
use Prim.Native.String.{len}
use dependecy_graph_auditor.Prelude.{
  ℕ, zero, suc, ◌-◌, ◌≡◌, refl, ap, String, Bool, true, false, none, some, List, [], ◌∷◌, map, ℤ,
  text_before, text_before-IsStrictTotalOrder, arith, length, ◌≤◌, ◌<◌, count_where,
}
use dependecy_graph_auditor.Job.{Job}
use dependecy_graph_auditor.ServiceStore.Tables.{Db, Services, empty_db}
use dependecy_graph_auditor.ServiceStore.Transaction.{Result, query, done, proceed, ◌>>=◌}
use dependecy_graph_auditor.ServiceStore.Statements.{scan_service_job, pending_row}
use dependecy_graph_auditor.ServiceStore.Identity.{DistinctIds}
use dependecy_graph_auditor.ServiceStore.Cursor.{
  Formats, has_bar, decoded, parts_of, parsed, split_at_bar, after_char, encode_cursor,
  decode_cursor, decode_cursor-encode_cursor,
}
use dependecy_graph_auditor.ServiceStore.Listing.{
  listed, behind_cursor, start_cursor, of_result, count_groups, next_cursor, ListFilter, Counts,
  list, counts, passes, has_status, same_status, newer, older_than, is_public, page_limit, ListPage,
}
use dependecy_graph_auditor.ServiceStore.Behind.{all_listed}
use dependecy_graph_auditor.ServiceStore.Walks.{follow, follow_next, follow-all_listed}
use dependecy_graph_auditor.ServiceStore.ListingBounds.{list-page_limit}
use dependecy_graph_auditor.ServiceStore.Counting.{counts-total, total_of}
use dependecy_graph_auditor.ServiceStore.Samples.{sample_services, nth_uuid, len-nth_uuid}
use dependecy_graph_auditor.ServiceStore.Runs.{given}

abbrev listing_services : Services
listing_services = record sample_services { text_lt = text_before }

pub has_bar-nth_uuid : (n : ℕ) → has_bar (nth_uuid n) ≡ false
unfolding has_bar
has_bar-nth_uuid zero = refl
has_bar-nth_uuid (suc n) =
    rw (append.cons "u" "" (nth_uuid n), append.nil (nth_uuid n)) (has_bar-nth_uuid n)

pub parse-nth_uuid : (n : ℕ) → some (len (nth_uuid n) - 1) ≡ some n
parse-nth_uuid n = let size = len-nth_uuid n in ap some (omega (arith, size))

-- A time is written as so many letters, and a text stands for itself.
abbrev pub sample_formats : Formats
sample_formats = record {
  encode_text = λ s. s;
  decode_text = λ s. some s;
  format_time = nth_uuid;
  parse_time = λ s. some (len s - 1);
  decode-encode = λ s. refl;
  decode_empty = refl;
  parse-format = parse-nth_uuid;
  no_bar = has_bar-nth_uuid;
}

abbrev listed_db : Db
listed_db = record empty_db {
  jobs =
      pending_row "a" "t" "" 5 1 "a"
      ∷ pending_row "b" "t" "" 5 2 "b"
      ∷ pending_row "c" "t" "" 5 2 "c"
      ∷ [];
}

abbrev two_at_a_time : ListFilter
two_at_a_time = record { status = none; job_type = ""; query = ""; limit = ℤ.pos 2; cursor = "" }

abbrev no_match : String → String → Bool
no_match value pattern = false

abbrev ids : Result (List Job × Db) → List String
ids (Result.ok (jobs, db)) = map (λ j. j.id) jobs
ids (Result.err e) = []

-- The client reads c and b, and then a.
follow-newest_first :
    ids (follow listing_services sample_formats no_match 2 two_at_a_time "" listed_db)
    ≡ "c" ∷ "b" ∷ "a" ∷ []
unfolding list passes has_status listed newer older_than behind_cursor page_limit start_cursor
    of_result counts query count_groups same_status next_cursor encode_cursor pending_row
    scan_service_job done proceed ◌>>=◌ follow follow_next decode_cursor decoded parts_of parsed
    split_at_bar after_char
follow-newest_first = refl

listed_db-DistinctIds : DistinctIds listed_db.jobs
unfolding pending_row
listed_db-DistinctIds = ((refl, (refl, tt)), ((refl, tt), (tt, tt)))

listed_length : length (all_listed listing_services no_match two_at_a_time listed_db.jobs) < 4
unfolding passes has_status newer older_than pending_row
listed_length = omega arith

follow-all_listed_example :
    follow listing_services sample_formats no_match 4 two_at_a_time "" listed_db
    ≡ Result.ok (
      map scan_service_job (all_listed listing_services no_match two_at_a_time listed_db.jobs),
      listed_db,
    )
follow-all_listed_example =
    follow-all_listed listing_services sample_formats no_match two_at_a_time listed_db 4
      text_before-IsStrictTotalOrder listed_db-DistinctIds listed_length

decode_cursor-encode_cursor_example :
    decode_cursor sample_formats (encode_cursor sample_formats 7 "a|b") ≡ Result.ok (7, "a|b")
decode_cursor-encode_cursor_example = decode_cursor-encode_cursor sample_formats 7 "a|b"

abbrev empty_page : ListPage
empty_page = record { jobs = []; next_cursor = ""; counts = [] }

abbrev first_page : ListPage
first_page =
    given empty_page (list listing_services sample_formats no_match two_at_a_time listed_db)

lists_ok :
    list listing_services sample_formats no_match two_at_a_time listed_db
    ≡ Result.ok (first_page, listed_db)
unfolding list passes has_status listed newer older_than behind_cursor page_limit start_cursor
    of_result counts query count_groups same_status next_cursor encode_cursor pending_row
    scan_service_job done proceed ◌>>=◌
lists_ok = refl

list-page_limit_example :
    (length first_page.jobs ≤ page_limit (ℤ.pos 2))
    × (1 ≤ page_limit (ℤ.pos 2))
    × (page_limit (ℤ.pos 2) ≤ 100)
list-page_limit_example =
    list-page_limit listing_services sample_formats no_match two_at_a_time listed_db listed_db
      first_page lists_ok

counts-total_example :
    (groups : Counts) × (counts listed_db ≡ Result.ok (groups, listed_db))
    × (total_of (λ s. true) groups ≡ count_where is_public listed_db.jobs)
counts-total_example = counts-total listed_db
