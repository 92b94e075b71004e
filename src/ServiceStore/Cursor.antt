-- ===== src/ServiceStore/Cursor.antt =====
-- `encodeCursor` and `decodeCursor` of internal/store/postgres/service.go: the place in the list of
-- jobs from which the next page goes on.
use Prim.Native.Char.{Char, code}
use Prim.Native.String.append
use Prim.Native.String.{String, [], ◌∷◌, ◌++◌}
use mathlib.Core.Bool.{◌||◌}
use dependecy_graph_auditor.Prelude.{
  ℕ, ◌≡◌, refl, sym, ap, ◌∙◌, Bool, true, false, Option, none, some, ◌==◌, if◌then◌else◌,
  Bool-cases, inl, inr, str_eq, eq_iff,
}
use mathlib.Core.Option.{some-injective}
use dependecy_graph_auditor.Job.{Error}
use dependecy_graph_auditor.ServiceStore.Transaction.{Result}

-- The separator of a cursor's two fields, by its code.
abbrev pub is_bar : Char → Bool
is_bar c = code c == 124

abbrev bar : Char
bar = "|"

unfoldable pub has_bar : String → Bool
has_bar [] = false
has_bar (c ∷ s) = is_bar c || has_bar s

unfoldable pub after_char : Char → Option (String × String) → Option (String × String)
after_char c none = none
after_char c (some (s, t)) = some (c ∷ s, t)

-- strings.SplitN(s, "|", 2): what stands before the first bar, and what stands behind it.
unfoldable pub split_at_bar : String → Option (String × String)
unfolding after_char
split_at_bar [] = none
split_at_bar (c ∷ s) =
    let rest = split_at_bar s in if is_bar c then some ([], s) else after_char c rest

-- Code outside the repository: base64.RawURLEncoding, and time.RFC3339Nano, whose texts hold no bar.
pub record Formats : Type 0 where
  pub encode_text : String → String
  pub decode_text : String → Option String
  pub format_time : ℕ → String
  pub parse_time : String → Option ℕ
  pub decode-encode : (s : String) → decode_text (encode_text s) ≡ some s
  pub decode_empty : decode_text "" ≡ some ""
  pub parse-format : (t : ℕ) → parse_time (format_time t) ≡ some t
  pub no_bar : (t : ℕ) → has_bar (format_time t) ≡ false

unfoldable pub encode_cursor : Formats → ℕ → String → String
encode_cursor formats created id = formats.encode_text (formats.format_time created ++ ("|" ++ id))

unfoldable pub parsed : Option ℕ → String → Result (ℕ × String)
parsed none id = Result.err Error.unparsed
parsed (some created) id = Result.ok (created, id)

unfoldable pub parts_of : Formats → Option (String × String) → Result (ℕ × String)
unfolding parsed
parts_of formats none = Result.err Error.conflict
parts_of formats (some (time, id)) = parsed (formats.parse_time time) id

unfoldable pub decoded : Formats → Option String → Result (ℕ × String)
unfolding split_at_bar parts_of
decoded formats none = Result.err Error.conflict
decoded formats (some text) = parts_of formats (split_at_bar text)

unfoldable pub decode_cursor : Formats → String → Result (ℕ × String)
unfolding decoded
decode_cursor formats cursor = decoded formats (formats.decode_text cursor)

neither : (a b : Bool) → (a || b) ≡ false → (a ≡ false) × (b ≡ false)
neither false b h = (refl, h)
neither true b h = cc

-- A text without a bar ends at the first bar behind it.
split_at_bar-append :
    (s t : String) → has_bar s ≡ false → split_at_bar (s ++ ("|" ++ t)) ≡ some (s, t)
unfolding has_bar split_at_bar after_char
split_at_bar-append [] t h = rw (append.nil ("|" ++ t), append.cons bar [] t, append.nil t) refl
split_at_bar-append (c ∷ s) t h =
    let (here, later) = neither (is_bar c) (has_bar s) h in
    rw (append.cons c s ("|" ++ t), here, split_at_bar-append s t later) refl

-- A cursor leads back to the time and the id that it was made of, whatever the id is.
pub decode_cursor-encode_cursor :
    (formats : Formats) (created : ℕ) (id : String)
    → decode_cursor formats (encode_cursor formats created id) ≡ Result.ok (created, id)
unfolding decode_cursor encode_cursor decoded parts_of parsed
decode_cursor-encode_cursor formats created id =
    let back = formats.decode-encode (formats.format_time created ++ ("|" ++ id)) in
    let parts = split_at_bar-append (formats.format_time created) id (formats.no_bar created) in
    rw (back, parts, formats.parse-format created) refl

unsplit : {A : Type 0} (p : String × String) → split_at_bar "" ≡ some p → A
unfolding split_at_bar
unsplit p e = cc

-- No cursor is the empty text, which stands for the beginning of the list.
pub encode_cursor-present :
    (formats : Formats) (created : ℕ) (id : String)
    → str_eq (encode_cursor formats created id) "" ≡ false
unfolding encode_cursor
encode_cursor-present formats created id = elim (Bool-cases (str_eq cursor "")) [
  | inr present ↦ present
  | inl empty ↦
      let same : cursor ≡ "" = (eq_iff cursor "").0 empty in
      let back =
        sym (formats.decode-encode text) ∙ ap formats.decode_text same ∙ formats.decode_empty in
      let blank : text ≡ "" = some-injective _ _ back in
      let parts = split_at_bar-append (formats.format_time created) id (formats.no_bar created) in
      unsplit (formats.format_time created, id) (sym (ap split_at_bar blank) ∙ parts)
]
  where
    text : String
    text = formats.format_time created ++ ("|" ++ id)

    cursor : String
    cursor = formats.encode_text text
