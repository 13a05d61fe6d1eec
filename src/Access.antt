-- ===== src/Access.antt =====
-- The participants' sessions with the service (backend/app/services/auth.py). The signing library is
-- a parameter; the fresh identifier and the readings of the clock are arguments.
pub mod Tokens
use web_accessible.Prelude.{
  Comparable, ◌==◌, nat_eq, eq_of_discrete, contains, dec_beq_iff, Text, codes, text_eq, is_space,
  is_nonempty, text_beq_iff, text_beq_refl, lower_idem, text_beq, lower_char, lower, lstrip, strip,
  is_blank, starts_with, occurs_in, Dict, lookup-put, lookup-remove, lookup-set_default, dict_laws,
  lookup, put, remove, set_default, ℕ, zero, suc, ◌+◌, ◌-◌, ◌*◌, ◌/◌, ◌%◌, ◌≤◌, ◌<◌, ◌≡◌, refl, sym,
  ap, ◌∙◌, ◌≢◌, ◌↔◌, ◌⊎◌, inl, inr, Bool, true, false, not, ◌&&◌, ◌||◌, Option, none, some, List,
  [], ◌∷◌, ◌++◌, map, reverse, arith, ltb, leb, nat_beq, if◌then◌else◌, ltb→lt, lt→ltb, leb→le,
  le→leb, nat_beq_iff, Bool-cases, Option-cases, length, get_elem?, set, take, drop, keep, count,
  any, all, All, length-append, length-set, length-keep, count-le-length, pos_part, neg_part, sub_ℕ,
  leb_ℤ, ltb_ℤ, sub_ℕ-le_iff, sub_ℕ-lt_iff, ℤ, pos, negsuc,
}
use web_accessible.Contracts.Json.{Json, Payload, entry, item, ident, text}
use web_accessible.Store.Types.{Preferences, ParticipantRow, Store}
use web_accessible.Store.Sessions.{create_participant, get_participant}

-- `ParticipantSessionRequest`, without the settings of the display.
pub record ParticipantSessionRequest : Type 0 where
  pub user_id : Text
  pub role : Text
  pub participant_name : Text
  pub preferences : Preferences

-- `ParticipantSessionResponse`, without what repeats the request.
pub record ParticipantSessionResponse : Type 0 where
  pub participant_session_id : ℕ
  pub access_token : Text
  pub expires_at : ℕ

pub record AuthenticatedParticipant : Type 0 where
  pub participant_session_id : ℕ
  pub user_id : Text
  pub role : Text
  pub participant_name : Text

-- What `URLSafeTimedSerializer.loads` returns, a mapping or another value, or raises.
pub data Loaded : Type 0 where
  mapping : Payload → Loaded
  other_value signature_expired bad_signature : Loaded

-- `dumps` at a time, and `loads` of a token with a greatest age at a time.
pub record Serializer : Type 0 where
  pub dumps : Payload → ℕ → Text
  pub loads : Text → ℕ → ℕ → Loaded

-- The reasons of `PermissionError`.
pub data Refusal : Type 0 where
  token_expired token_invalid unavailable row_expired unbound : Refusal

-- `malformed` is the `ValueError` of an identifier that is no UUID.
pub data Verified : Type 0 where
  authenticated : AuthenticatedParticipant → Verified
  refused : Refusal → Verified
  malformed : Verified

-- `ttl_seconds`
abbrev pub ttl : ℕ
ttl = 8 * 60 * 60 * 1000000

abbrev pub claims_of : ℕ → ParticipantSessionRequest → Payload
claims_of participant request =
    item "participant_session_id" (ident participant)
    ∷ item "user_id" (text request.user_id)
    ∷ item "role" (text request.role)
    ∷ []

-- `UUID(str(…))`
abbrev pub read_uuid : Json → Option ℕ
read_uuid (Json.ident n) = some n
read_uuid _ = none

-- Whether an entry of the token is the column of the row.
abbrev pub is_text : Text → Json → Bool
is_text t (Json.text u) = t == u
is_text t _ = false

module _ (signer : Serializer) where
  -- `create`; `none` is `sqlite3.IntegrityError`. `now` sets the expiry, `stored_at` and `signed_at`
  -- are read after it.
  unfoldable pub create :
      ℕ
      → ℕ
      → ℕ
      → ℕ
      → ParticipantSessionRequest
      → Store
      → Option (ParticipantSessionResponse × Store)
  unfolding create_participant
  create fresh now stored_at signed_at request s =
      elim (create_participant fresh request.user_id request.role request.participant_name
        request.preferences (now + ttl) stored_at s) [
          | none ↦ none
          | some s' ↦ some (
            record {
              participant_session_id = fresh;
              access_token = signer.dumps (claims_of fresh request) signed_at;
              expires_at = now + ttl;
            },
            s',
          )
        ]

  abbrev pub checked : ℕ → Payload → ℕ → ParticipantRow → Verified
  checked participant payload now row =
      if leb row.expires_at now
      then Verified.refused Refusal.row_expired
      else if is_text row.user_id (entry (codes "user_id") payload)
          && is_text row.role (entry (codes "role") payload)
      then Verified.authenticated (record {
        participant_session_id = participant;
        user_id = row.user_id;
        role = row.role;
        participant_name = row.participant_name;
      })
      else Verified.refused Refusal.unbound

  abbrev pub looked_up : Payload → ℕ → Store → Option ℕ → Verified
  looked_up payload now s none = Verified.malformed
  looked_up payload now s (some participant) = elim (get_participant participant s) [
    | none ↦ Verified.refused Refusal.unavailable
    | some row ↦ checked participant payload now row
  ]

  abbrev pub read_token : ℕ → Store → Loaded → Verified
  read_token now s (Loaded.mapping payload) =
      looked_up payload now s (read_uuid (entry (codes "participant_session_id") payload))
  read_token now s Loaded.other_value = Verified.refused Refusal.token_invalid
  read_token now s Loaded.signature_expired = Verified.refused Refusal.token_expired
  read_token now s Loaded.bad_signature = Verified.refused Refusal.token_invalid

  -- `verify`; the token is loaded at one reading of the clock, and the row compared with another.
  unfoldable pub verify : Text → ℕ → ℕ → Store → Verified
  unfolding get_participant lookup
  verify token loaded_at now s = read_token now s (signer.loads token ttl loaded_at)
