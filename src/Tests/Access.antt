-- ===== src/Tests/Access.antt =====
-- A session with the service (backend/app/services/auth.py).
use web_accessible.Prelude.{
  nat_eq, Text, codes, text_eq, text_beq, lookup, put, ℕ, ◌+◌, ◌≡◌, refl, false, some, [], ◌∷◌,
  arith, leb, if◌then◌else◌, le→leb,
}
use web_accessible.Store.Types.{Store}
use web_accessible.Store.Table.{insert}
use web_accessible.Store.Sessions.{create_participant, get_participant}
use web_accessible.Access.{
  ParticipantSessionRequest, ParticipantSessionResponse, AuthenticatedParticipant, Loaded,
  Serializer, Verified, ttl, create, verify, claims_of,
}
use web_accessible.Access.Tokens.{IsFaithful, IsBacked, verify-IsBacked, verify-create}
use web_accessible.Tests.Storage.{empty_store}

abbrev sign_in : ParticipantSessionRequest
sign_in = record {
  user_id = codes "u";
  role = codes "user";
  participant_name = codes "Ann";
  preferences = record {
    activity_memory_enabled = false;
    proactive_reminders_enabled = false;
    timezone = codes "UTC";
  };
}

abbrev aged : ℕ → ℕ → Text → Loaded
aged max_age t (signed_at ∷ []) =
    if leb t (signed_at + max_age)
    then Loaded.mapping (claims_of 3 sign_in)
    else Loaded.signature_expired
aged max_age t _ = Loaded.bad_signature

-- A serializer that knows the claims of one participant; its token is the time of signing.
abbrev sole : Serializer
sole = record { dumps = λ claims t. t ∷ []; loads = λ token max_age t. aged max_age t token }

sole-IsFaithful : IsFaithful sole (claims_of 3 sign_in)
sole-IsFaithful = record {
  reads = λ signed_at max_age loaded_at h. rw (le→leb loaded_at (signed_at + max_age) h) refl;
}

abbrev signed_in : ParticipantSessionResponse
signed_in = record { participant_session_id = 3; access_token = 12 ∷ []; expires_at = 10 + ttl }

abbrev one_participant : Store
one_participant = record empty_store {
  participants =
      (
        3,
        record {
          user_id = codes "u";
          role = codes "user";
          participant_name = codes "Ann";
          preferences = sign_in.preferences;
          expires_at = 10 + ttl;
          created_at = 11;
        },
      )
      ∷ [];
}

signs_in : create sole 3 10 11 12 sign_in empty_store ≡ some (signed_in, one_participant)
unfolding create create_participant insert lookup put
signs_in = refl

abbrev ann : AuthenticatedParticipant
ann = record {
  participant_session_id = 3;
  user_id = codes "u";
  role = codes "user";
  participant_name = codes "Ann";
}

verify-create_example : verify sole (12 ∷ []) 500 600 one_participant ≡ Verified.authenticated ann
verify-create_example =
    verify-create sole 3 10 11 12 500 600 sign_in empty_store one_participant signed_in
      sole-IsFaithful signs_in (omega arith) (omega arith)

verified : verify sole (12 ∷ []) 500 600 one_participant ≡ Verified.authenticated ann
unfolding verify get_participant lookup text_beq
verified = refl

verify-IsBacked_example : IsBacked (sole.loads (12 ∷ []) ttl 500) 600 one_participant ann
verify-IsBacked_example = verify-IsBacked sole (12 ∷ []) 500 600 one_participant ann verified
