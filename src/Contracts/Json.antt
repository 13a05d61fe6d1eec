-- ===== src/Contracts/Json.antt =====
-- The values of event and telemetry payloads (backend/app/contracts/models.py,
-- backend/app/persistence/repository.py).
use Prim.Native.String.{String}
use web_accessible.Prelude.{codes, nat_eq, Text, text_eq, Dict, lookup, ℕ, Bool, Option, none, some}

-- `ident` and `instant` print as a UUID and as an ISO time; a nested value stands as its JSON text.
pub data Json : Type 0 where
  null : Json
  flag : Bool → Json
  number : ℕ → Json
  text : Text → Json
  ident : ℕ → Json
  instant : ℕ → Json

abbrev pub Payload : Type 0
Payload = Dict Text Json

-- `payload.get(key)`
abbrev pub entry : Text → Payload → Json
entry key payload = elim (lookup key payload) [ none ↦ null | some v ↦ v ]

abbrev pub text_or_null : Option Text → Json
text_or_null none = null
text_or_null (some t) = text t

abbrev pub number_or_null : Option ℕ → Json
number_or_null none = null
number_or_null (some n) = number n

-- An entry of a payload that is written out.
abbrev pub item : String → Json → Text × Json
item name value = (codes name, value)
