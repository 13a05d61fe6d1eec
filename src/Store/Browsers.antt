-- ===== src/Store/Browsers.antt =====
-- The browser sessions of the store (backend/app/persistence/repository.py).
use web_accessible.Prelude.{
  ◌==◌, nat_eq, Text, codes, text_eq, Dict, lookup, put, ℕ, Bool, true, false, not, ◌&&◌, ◌||◌,
  Option, none, some, if◌then◌else◌, any,
}
use web_accessible.Store.Types.{BrowserRow, Store}

-- Another web session holds the provider's session: the table's `UNIQUE` column.
unfoldable pub is_taken : ℕ → Text → Dict ℕ BrowserRow → Bool
is_taken web_session_id provider rows =
    any (λ (e : ℕ × BrowserRow). not (e.0 == web_session_id) && e.1.provider_session_id == provider)
      rows

-- The row that an upsert leaves: of an old one, only the columns that the statement names change.
abbrev upserted : Option BrowserRow → Text → Text → Text → ℕ → BrowserRow
upserted none provider start_url status now = record {
  provider_session_id = provider;
  start_url = start_url;
  status = status;
  created_at = now;
  attached_at = none;
  stopped_at = none;
  terminal_reason = none;
}
upserted (some row) provider start_url status now = record row {
  provider_session_id = provider;
  start_url = start_url;
  status = status;
}

-- `save_browser_session`; `none` is `sqlite3.IntegrityError`.
unfoldable pub save_browser_session : ℕ → Text → Text → Text → ℕ → Store → Option Store
unfolding is_taken
save_browser_session web_session_id provider start_url status now s =
    if is_taken web_session_id provider s.browsers
    then none
    else some (record s {
      browsers =
          put web_session_id
            (upserted (lookup web_session_id s.browsers) provider start_url status now) s.browsers;
    })

-- `COALESCE(new, old)`
abbrev pub coalesce {ℓ} : {A : Type ℓ} → Option A → Option A → Option A
coalesce none old = old
coalesce (some a) old = some a

abbrev when : Bool → ℕ → Option ℕ
when true now = some now
when false now = none

-- `update_browser_session`; a session that is not there is left alone.
unfoldable pub update_browser_session : ℕ → Text → Option Text → ℕ → Store → Store
update_browser_session web_session_id status terminal_reason now s =
    elim (lookup web_session_id s.browsers) [
      | none ↦ s
      | some row ↦ record s {
        browsers =
            put web_session_id
              (record row {
                status = status;
                attached_at = coalesce (when (status == codes "connected") now) row.attached_at;
                stopped_at =
                    coalesce
                      (when (status == codes "stopped" || status == codes "termination_failed") now)
                      row.stopped_at;
                terminal_reason = coalesce terminal_reason row.terminal_reason;
              })
              s.browsers;
      }
    ]

-- `get_browser_session`
unfoldable pub get_browser_session : ℕ → Store → Option BrowserRow
get_browser_session web_session_id s = lookup web_session_id s.browsers
