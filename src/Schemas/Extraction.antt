-- ===== src/Schemas/Extraction.antt =====
-- app/schemas/extraction.py: the schemas of the records that a model is asked for, as data, and which
-- JSON dumps conform to them. Pydantic dumps the fields in the order of their declarations.
use async_ai_document_pipeli.Prelude.{
  ℕ, ◌^◌, Bool, true, false, ◌&&◌, String, code, str_eq, ◌==◌, leb, if◌then◌else◌,
}
use async_ai_document_pipeli.Core.Enums.{DocumentType, invoice, resume, support_ticket, generic}
use async_ai_document_pipeli.Db.Models.{
  Decimal, Json, null, text, num, arr, obj, Items, nil, item, Fields, end, field,
}

-- The types of the fields, and the fields of a class.
mutual
  pub data FieldType : Type 0 where
    -- `str | None`, `float | None`, `date | None`
    text_or_null number_or_null date_or_null : FieldType
    -- `float = Field(ge=0.0, le=1.0)`
    fraction : FieldType
    -- `list[str]`
    texts : FieldType
    -- a list of objects of a class
    entries : Schema → FieldType

  pub data Schema : Type 0 where
    done : Schema
    declare : String → FieldType → Schema → Schema

abbrev pub invoice_line_item : Schema
invoice_line_item = declare "description" text_or_null (
    declare "quantity" number_or_null
      (declare "unit_price" number_or_null (declare "amount" number_or_null done)))

abbrev pub invoice_extraction : Schema
invoice_extraction = declare "vendor_name" text_or_null (
    declare "invoice_number" text_or_null (
      declare "invoice_date" date_or_null (
        declare "due_date" date_or_null (
          declare "currency" text_or_null (
            declare "subtotal" number_or_null (
              declare "tax" number_or_null (
                declare "total" number_or_null (
                  declare "line_items" (entries invoice_line_item)
                    (declare "confidence_score" fraction done)))))))))

abbrev pub education_entry : Schema
education_entry = declare "institution" text_or_null (
    declare "degree" text_or_null (
      declare "field_of_study" text_or_null
        (declare "start_date" text_or_null (declare "end_date" text_or_null done))))

abbrev pub experience_entry : Schema
experience_entry = declare "company" text_or_null (
    declare "title" text_or_null (
      declare "start_date" text_or_null
        (declare "end_date" text_or_null (declare "description" text_or_null done))))

abbrev pub resume_extraction : Schema
resume_extraction = declare "candidate_name" text_or_null (
    declare "email" text_or_null (
      declare "phone" text_or_null (
        declare "location" text_or_null (
          declare "summary" text_or_null (
            declare "skills" texts (
              declare "education" (entries education_entry) (
                declare "experience" (entries experience_entry) (
                  declare "total_years_of_experience" number_or_null
                    (declare "confidence_score" fraction done)))))))))

abbrev pub support_ticket_extraction : Schema
support_ticket_extraction = declare "subject" text_or_null (
    declare "customer_name" text_or_null (
      declare "customer_email" text_or_null (
        declare "category" text_or_null (
          declare "priority" text_or_null (
            declare "summary" text_or_null (
              declare "requested_action" text_or_null
                (declare "sentiment" text_or_null (declare "confidence_score" fraction done))))))))

abbrev pub generic_document_extraction : Schema
generic_document_extraction = declare "title" text_or_null (
    declare "document_type" text_or_null (
      declare "summary" text_or_null (
        declare "key_entities" texts (
          declare "important_dates" texts
            (declare "action_items" texts (declare "confidence_score" fraction done))))))

-- `SCHEMA_REGISTRY`, with the fields of the classes.
unfoldable pub schema_of : DocumentType → Schema
schema_of invoice = invoice_extraction
schema_of resume = resume_extraction
schema_of support_ticket = support_ticket_extraction
schema_of generic = generic_document_extraction

is_digit : ℕ → Bool
is_digit c = leb b'0' c && leb c b'9'

-- A date as Pydantic dumps it, YYYY-MM-DD.
unfoldable pub is_date : String → Bool
unfolding is_digit
is_date
      (String.◌∷◌ a (
        String.◌∷◌ b (
          String.◌∷◌ c (
            String.◌∷◌ d (
              String.◌∷◌ e (
                String.◌∷◌ f
                  (String.◌∷◌ g (String.◌∷◌ h (String.◌∷◌ i (String.◌∷◌ j String.[])))))))))) =
    is_digit (code a)
    && is_digit (code b)
    && is_digit (code c)
    && is_digit (code d)
    && code e == b'-'
    && is_digit (code f)
    && is_digit (code g)
    && code h == b'-'
    && is_digit (code i)
    && is_digit (code j)
is_date _ = false

-- At most one; a decimal is never negative.
abbrev pub at_most_one : Decimal → Bool
at_most_one d = leb d.digits (10 ^ d.scale)

unfoldable pub are_texts : Items → Bool
are_texts nil = true
are_texts (item (text s) items) = are_texts items
are_texts (item _ items) = false

-- A value, the fields and the items that the types and the classes describe.
unfoldable mutual
  unfolding are_texts is_date

  pub conforms : FieldType → Json → Bool
  conforms text_or_null null = true
  conforms text_or_null (text s) = true
  conforms number_or_null null = true
  conforms number_or_null (num d) = true
  conforms date_or_null null = true
  conforms date_or_null (text s) = is_date s
  conforms fraction (num d) = at_most_one d
  conforms texts (arr items) = are_texts items
  conforms (entries schema) (arr items) = conforms_items schema items
  conforms _ _ = false

  pub conforms_items : Schema → Items → Bool
  conforms_items schema nil = true
  conforms_items schema (item (obj fields) items) =
      if conforms_fields schema fields then conforms_items schema items else false
  conforms_items schema (item _ items) = false

  pub conforms_fields : Schema → Fields → Bool
  conforms_fields done end = true
  conforms_fields (declare name type schema) (field key value fields) =
      str_eq key name && conforms type value && conforms_fields schema fields
  conforms_fields _ _ = false

-- An object of a class.
abbrev pub is_of : Schema → Json → Bool
is_of schema (obj fields) = conforms_fields schema fields
is_of schema _ = false
