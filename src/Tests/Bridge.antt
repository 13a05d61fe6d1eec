-- ===== src/Tests/Bridge.antt =====
-- Redaction and verification at small inputs (backend/app/browser).
use web_accessible.Prelude.{nat_eq, Text, codes, text_eq, ◌≡◌, refl, true, false, none}
use web_accessible.Contracts.Element.{VerificationType}
use web_accessible.Browser.Sanitizer.{Value, Entries, Items, redact_payload}
use web_accessible.Browser.Sanitizer.Clean.{IsClean, redact_payload-IsClean}
use web_accessible.Browser.Verifier.{Page, verify_predicate}

abbrev secret_entry : Entries
secret_entry = Entries.entry (codes "password") (Value.text (codes "p")) Entries.no_entry

abbrev form : Entries
form =
    Entries.entry (codes "fields")
      (Value.array (Items.item (Value.object secret_entry) Items.no_item)) secret_entry

redact_payload-IsClean_example :
    IsClean (redact_payload form) × (redact_payload (redact_payload form) ≡ redact_payload form)
redact_payload-IsClean_example = redact_payload-IsClean form

redacted :
    redact_payload form
    ≡ Entries.entry
        (codes "fields")
        (Value.array (Items.item (Value.object Entries.no_entry) Items.no_item))
        Entries.no_entry
unfolding redact_payload
redacted = refl

-- A list inside a list keeps what it holds.
abbrev nested : Entries
nested =
    Entries.entry (codes "rows")
      (Value.array (
        Items.item (Value.array (Items.item (Value.object secret_entry) Items.no_item))
          Items.no_item))
      Entries.no_entry

nested_kept : redact_payload nested ≡ nested
unfolding redact_payload
nested_kept = refl

abbrev paid_page : Page
paid_page = record {
  Locator = Text;
  url = codes "https://example.com/paid/";
  title = codes "Payment Received";
  get_by_role = λ role name. name;
  get_by_text = λ t exact. t;
  locator = λ css. css;
  count = λ l. 1;
  is_visible = λ l. true;
  is_enabled = λ l. true;
  is_checked = λ l. false;
  attribute = λ name l. none;
  fullmatch = λ pattern t. true;
}

title_is_found :
    verify_predicate paid_page (record {
      kind = VerificationType.page_title_contains;
      value = codes "received";
      selector = none;
      state_name = none;
    })
    ≡ true
unfolding verify_predicate
title_is_found = refl

path_is_reached :
    verify_predicate paid_page (record {
      kind = VerificationType.url_path_equals;
      value = codes "/paid";
      selector = none;
      state_name = none;
    })
    ≡ true
unfolding verify_predicate
path_is_reached = refl
