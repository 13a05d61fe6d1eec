-- ===== src/Access/Tokens.antt =====
-- What a token proves (backend/app/services/auth.py).
use web_accessible.Prelude.{
  nat_eq, Text, codes, text_eq, text_beq_refl, text_beq, lookup-put, lookup, ℕ, ◌+◌, ◌≤◌, ◌<◌, ◌≡◌,
  refl, sym, ap, ◌∙◌, inl, inr, Bool, true, false, ◌&&◌, Option, none, some, arith, leb,
  if◌then◌else◌, nat_beq_iff, Option-cases,
}
use web_accessible.Contracts.Json.{Payload, entry}
use web_accessible.Store.Types.{ParticipantRow, Store}
use web_accessible.Store.Table.{insert}
use web_accessible.Store.Sessions.{create_participant, get_participant}
use web_accessible.Access.{
  checked, ParticipantSessionRequest, ParticipantSessionResponse, AuthenticatedParticipant, Loaded,
  Serializer, Refusal, Verified, ttl, claims_of, create, looked_up, read_token, verify, is_text,
  read_uuid,
}

-- A token that was signed for some claims is read back until its age exceeds the limit.
pub record IsFaithful (signer : Serializer) (claims : Payload) : Type 0 where
  pub reads :
      (signed_at max_age loaded_at : ℕ)
      → loaded_at ≤ signed_at + max_age
      → signer.loads (signer.dumps claims signed_at) max_age loaded_at ≡ Loaded.mapping claims

-- What stands behind an authenticated participant: a row of the store under the identifier that
-- is not expired, and a token that was signed for that identifier, user and role.
pub record IsBacked (loaded : Loaded) (now : ℕ) (s : Store) (a : AuthenticatedParticipant)
    : Type 0 where
  pub payload : Payload
  pub row : ParticipantRow
  pub signed : loaded ≡ Loaded.mapping payload
  pub named :
      read_uuid (entry (codes "participant_session_id") payload) ≡ some a.participant_session_id
  pub stored : get_participant a.participant_session_id s ≡ some row
  pub lasts : now < row.expires_at
  pub is_row :
      (a.user_id ≡ row.user_id) × (a.role ≡ row.role) × (a.participant_name ≡ row.participant_name)
  pub user : is_text row.user_id (entry (codes "user_id") payload) ≡ true
  pub role : is_text row.role (entry (codes "role") payload) ≡ true

module _ (signer : Serializer) where
  checked_branch :
      (x y z : Bool) (a b : AuthenticatedParticipant)
      → (if x
          then Verified.refused Refusal.row_expired
          else if y && z
          then Verified.authenticated b
          else Verified.refused Refusal.unbound)
        ≡ Verified.authenticated a
      → (x ≡ false) × (y ≡ true) × (z ≡ true) × (a ≡ b)
  checked_branch true y z a b h = absurd cc
  checked_branch false false z a b h = absurd cc
  checked_branch false true false a b h = absurd cc
  checked_branch false true true a b h = (refl, refl, refl, cc)

  looked_up-IsBacked :
      (payload : Payload) (now : ℕ) (s : Store) (who : Option ℕ) (a : AuthenticatedParticipant)
      → read_uuid (entry (codes "participant_session_id") payload) ≡ who
      → looked_up signer payload now s who ≡ Verified.authenticated a
      → IsBacked (Loaded.mapping payload) now s a
  looked_up-IsBacked payload now s none a w h = absurd cc
  looked_up-IsBacked payload now s (some i) a w h = elim (Option-cases (get_participant i s)) [
    | inl absent ↦ absurd cc
    | inr (row, there) ↦
        let z =
          checked_branch (leb row.expires_at now)
            (is_text row.user_id (entry (codes "user_id") payload))
            (is_text row.role (entry (codes "role") payload)) a
            (record {
              participant_session_id = i;
              user_id = row.user_id;
              role = row.role;
              participant_name = row.participant_name;
            })
            (rw (looked_up, there) at h) in
        let same : a.participant_session_id ≡ i = ap (λ v. v.participant_session_id) z.3 in
        record {
          payload = payload;
          row = row;
          signed = refl;
          named = w ∙ ap some (sym same);
          stored = ap (λ n. get_participant n s) same ∙ there;
          lasts = ground (arith, z.0);
          is_row =
              (ap (λ v. v.user_id) z.3, ap (λ v. v.role) z.3, ap (λ v. v.participant_name) z.3);
          user = z.1;
          role = z.2;
        }
  ]

  read_token-IsBacked :
      (loaded : Loaded) (now : ℕ) (s : Store) (a : AuthenticatedParticipant)
      → read_token signer now s loaded ≡ Verified.authenticated a
      → IsBacked loaded now s a
  read_token-IsBacked (Loaded.mapping payload) now s a h =
      looked_up-IsBacked payload now s (read_uuid (entry (codes "participant_session_id") payload))
        a refl h
  read_token-IsBacked Loaded.other_value now s a h = absurd cc
  read_token-IsBacked Loaded.signature_expired now s a h = absurd cc
  read_token-IsBacked Loaded.bad_signature now s a h = absurd cc

  -- Whoever is authenticated has a row in the store that is not expired, with this user, role and
  -- name, and brought a token that was signed for the row's identifier, user and role.
  pub verify-IsBacked :
      (token : Text) (loaded_at now : ℕ) (s : Store) (a : AuthenticatedParticipant)
      → verify signer token loaded_at now s ≡ Verified.authenticated a
      → IsBacked (signer.loads token ttl loaded_at) now s a
  unfolding verify
  verify-IsBacked token loaded_at now s a h =
      read_token-IsBacked (signer.loads token ttl loaded_at) now s a h

  abbrev row_for : ℕ → ℕ → ParticipantSessionRequest → ParticipantRow
  row_for now stored_at q = record {
    user_id = q.user_id;
    role = q.role;
    participant_name = q.participant_name;
    preferences = q.preferences;
    expires_at = now + ttl;
    created_at = stored_at;
  }

  created_row :
      (fresh now stored_at signed_at : ℕ) (q : ParticipantSessionRequest) (s s' : Store)
      (r : ParticipantSessionResponse)
      → create signer fresh now stored_at signed_at q s ≡ some (r, s')
      → (get_participant fresh s'
          ≡ some (record {
            user_id = q.user_id;
            role = q.role;
            participant_name = q.participant_name;
            preferences = q.preferences;
            expires_at = now + ttl;
            created_at = stored_at;
          }))
        × (r.access_token ≡ signer.dumps (claims_of fresh q) signed_at)
  unfolding create create_participant get_participant insert
  created_row fresh now stored_at signed_at q s s' r h =
      elim (Option-cases (lookup fresh s.participants)) [
        | inl absent ↦
            let e = rw (create, create_participant, insert, absent) at h in
            let there = ap (λ o. elim o [ none ↦ s | some x ↦ x.1 ]) e in
            let answer = ap (λ o. elim o [ none ↦ r | some x ↦ x.0 ]) e in
            (
              ap (get_participant fresh) (sym there)
                  ∙ rw
                      (
                        lookup-put fresh fresh (row_for now stored_at q) s.participants,
                        (nat_beq_iff fresh fresh).1 refl,
                      )
                      refl,
              ap (λ v. v.access_token) (sym answer),
            )
        | inr (row, there) ↦ absurd (cc (rw (create, create_participant, insert, there) at h))
      ]

  -- The token of a session that was created is good until the session expires and its signature
  -- does: it authenticates the participant who asked, if the serializer reads back what it signed for these claims.
  pub verify-create :
      (fresh now stored_at signed_at loaded_at later : ℕ) (q : ParticipantSessionRequest)
      (s s' : Store) (r : ParticipantSessionResponse)
      → IsFaithful signer (claims_of fresh q)
      → create signer fresh now stored_at signed_at q s ≡ some (r, s')
      → loaded_at ≤ signed_at + ttl
      → later < now + ttl
      → verify signer r.access_token loaded_at later s'
        ≡ Verified.authenticated (record {
          participant_session_id = fresh;
          user_id = q.user_id;
          role = q.role;
          participant_name = q.participant_name;
        })
  unfolding verify lookup text_beq
  verify-create fresh now stored_at signed_at loaded_at later q s s' r faithful h fresh_token
        young =
      let z = created_row fresh now stored_at signed_at q s s' r h in
      let loaded = faithful.reads signed_at ttl loaded_at fresh_token in
      let lasts : leb (now + ttl) later ≡ false = ground (arith, young) in
      rw
        (z.1, loaded, looked_up, z.0, checked, lasts, text_beq_refl q.user_id, text_beq_refl q.role)
        refl
