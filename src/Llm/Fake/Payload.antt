-- ===== src/Llm/Fake/Payload.antt =====
-- `_fake_payload` and `_find_after` of app/llm/base.py, with the dates as they are dumped.
use async_ai_document_pipeli.Prelude.{
  ℕ, suc, ◌+◌, Bool, true, false, ◌&&◌, ◌||◌, Option, none, some, List, [], ◌∷◌, String, code,
  str_eq, ◌==◌, leb, len, prefix, after, is_empty, join, onto_first, if◌then◌else◌,
}
use async_ai_document_pipeli.Core.Enums.{DocumentType, invoice, resume, support_ticket, generic}
use async_ai_document_pipeli.Core.Errors.{Exn, foreign}
use async_ai_document_pipeli.Core.Exec.{Outcome, ok, raised}
use async_ai_document_pipeli.Core.Whitespace.{is_space, strip}
use async_ai_document_pipeli.Db.Models.{Json, null, text, num, arr, obj, nil, item, end, field}
use async_ai_document_pipeli.Platform.{Parsers}

-- `s.find(part)`
unfoldable pub find : String → String → Option ℕ
find part String.[] = if is_empty part then some 0 else none
find part (String.◌∷◌ c s) = elim (str_eq (prefix (len part) (String.◌∷◌ c s)) part) [
  | true ↦ some 0
  | false ↦ elim (find part s) [ none ↦ none | some n ↦ some (suc n) ]
]

-- The characters that end a line for `str.splitlines`.
unfoldable pub ends_line : ℕ → Bool
ends_line c =
    (leb 10 c && leb c 13)
    || (leb 28 c && leb c 30)
    || (c == 0x85)
    || (c == 0x2028)
    || (c == 0x2029)

-- The first line of a text that is not empty.
unfoldable pub until_end : String → String
unfolding ends_line
until_end String.[] = String.[]
until_end (String.◌∷◌ c s) = elim (ends_line (code c)) [
  | true ↦ String.[]
  | false ↦ String.◌∷◌ c (until_end s)
]

abbrev pub index_error : Exn
index_error = foreign record {
  type_name = "IndexError";
  classes = "IndexError" ∷ "LookupError" ∷ "Exception" ∷ [];
  text = "list index out of range";
}

-- `s.splitlines()[0]`: an empty text has no line.
unfoldable pub first_line : String → Outcome String
unfolding until_end
first_line s = if is_empty s then raised index_error else ok (until_end s)

-- `remainder or None`
abbrev pub or_none : String → Option String
or_none s = if is_empty s then none else some s

abbrev pub stripped_or_none : Outcome String → Outcome (Option String)
stripped_or_none (raised e) = raised e
stripped_or_none (ok line) = ok (or_none (strip line))

-- `text.split()`: the parts between white space that are not empty.
unfoldable pub split_spaces : String → List String
split_spaces String.[] = String.[] ∷ []
split_spaces (String.◌∷◌ c s) =
    let parts = split_spaces s in
    if is_space (code c) then String.[] ∷ parts else onto_first c parts

unfoldable pub nonempty_words : List String → List String
nonempty_words [] = []
nonempty_words (word ∷ words) =
    let kept = nonempty_words words in if is_empty word then kept else word ∷ kept

unfoldable pub snippet : String → Option String
unfolding split_spaces nonempty_words
snippet s = or_none (prefix 200 (join " " (nonempty_words (split_spaces s))))

abbrev pub text_or_null : Option String → Json
text_or_null none = null
text_or_null (some s) = text s

abbrev int : ℕ → Json
int n = num (record { digits = n; scale = 0 })

abbrev three_quarters : Json
three_quarters = num (record { digits = 75; scale = 2 })

module _ (parsers : Parsers) where
  -- The index is of the lowered text, and is used in the text itself.
  unfoldable pub find_after : String → String → Outcome (Option String)
  unfolding find first_line strip
  find_after s marker = elim (find (parsers.lower marker) (parsers.lower s)) [
    | none ↦ ok none
    | some index ↦ stripped_or_none (first_line (after (index + len marker) s))
  ]

unfoldable pub invoice_payload : Option String → Json
invoice_payload vendor = obj (
    field "vendor_name" (elim vendor [ none ↦ text "Example Vendor" | some name ↦ text name ])
      (field "invoice_number" (text "INV-1001") (
        field "invoice_date" (text "2026-01-15") (
          field "due_date" (text "2026-02-15") (
            field "currency" (text "USD") (
              field "subtotal" (int 100) (
                field "tax" (int 8) (
                  field "total" (int 108) (
                    field "line_items"
                      (arr (
                        item
                          (obj (
                            field "description" (text "Professional services") (
                              field "quantity" (int 1)
                                (field "unit_price" (int 100) (field "amount" (int 100) end)))))
                          nil))
                      (field "confidence_score" three_quarters end))))))))))

unfoldable pub resume_payload : Json → Json
resume_payload snippet_json = obj (
    field "candidate_name" (text "Alex Example") (
      field "email" (text "alex@example.com") (
        field "phone" null (
          field "location" null (
            field "summary" snippet_json (
              field "skills" (arr (item (text "python") (item (text "sql") nil))) (
                field "education"
                  (arr (
                    item
                      (obj (
                        field "institution" (text "Example University") (
                          field "degree" (text "BSc") (
                            field "field_of_study" (text "Computer Science") (
                              field "start_date" (text "2018")
                                (field "end_date" (text "2022") end))))))
                      nil))
                  (field "experience"
                    (arr (
                      item
                        (obj (
                          field "company" (text "Example Corp") (
                            field "title" (text "Engineer") (
                              field "start_date" (text "2022")
                                (field "end_date" null (field "description" snippet_json end))))))
                        nil))
                    (field "total_years_of_experience" (int 3)
                      (field "confidence_score" three_quarters end))))))))))

unfoldable pub ticket_payload : Json → Json
ticket_payload snippet_json = obj (
    field "subject" snippet_json (
      field "customer_name" (text "Casey Customer") (
        field "customer_email" (text "casey@example.com") (
          field "category" (text "billing") (
            field "priority" (text "medium") (
              field "summary" snippet_json (
                field "requested_action" (text "Investigate and reply") (
                  field "sentiment" (text "neutral")
                    (field "confidence_score" three_quarters end)))))))))

unfoldable pub generic_payload : Json → Json
generic_payload snippet_json = obj (
    field "title" snippet_json (
      field "document_type" (text "memo") (
        field "summary" snippet_json (
          field "key_entities" (arr (item (text "Example Org") nil)) (
            field "important_dates" (arr nil)
              (field "action_items" (arr nil) (field "confidence_score" three_quarters end)))))))

abbrev pub with_vendor : Outcome (Option String) → Outcome Json
with_vendor (raised e) = raised e
with_vendor (ok vendor) = ok (invoice_payload vendor)

unfoldable pub fake_payload : Parsers → DocumentType → String → Outcome Json
unfolding snippet find_after invoice_payload resume_payload ticket_payload generic_payload
fake_payload parsers invoice s = with_vendor (find_after parsers s "vendor:")
fake_payload parsers resume s = ok (resume_payload (text_or_null (snippet s)))
fake_payload parsers support_ticket s = ok (ticket_payload (text_or_null (snippet s)))
fake_payload parsers generic s = ok (generic_payload (text_or_null (snippet s)))
