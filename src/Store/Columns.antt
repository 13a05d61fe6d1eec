-- ===== src/Store/Columns.antt =====
-- The index columns of a session against its payload (backend/app/persistence/repository.py).
use web_accessible.Prelude.{
  nat_eq, text_eq, lookup, put, ℕ, ◌≡◌, ◌⊎◌, inl, inr, Bool, some, arith, Option-cases,
}
use web_accessible.Store.Types.{SessionView, SessionRow, Store}
use web_accessible.Store.Sessions.{
  create_session, update_session, updated_view, row_of, set_columns,
}
use web_accessible.Store.Table.{lookup-put-cases}

-- The row stands under its session's identifier, and its columns repeat the payload.
pub record IsFiled (k : ℕ) (row : SessionRow) : Type 0 where
  pub key : row.payload.id ≡ k
  pub user : row.payload.user_id ≡ row.user_id
  pub participant : row.payload.participant_session_id ≡ row.participant_session_id
  pub state : row.payload.state ≡ row.state
  pub version : row.payload.state_version ≡ row.state_version
  pub created : row.payload.created_at ≡ row.created_at
  pub updated : row.payload.updated_at ≡ row.updated_at

abbrev pub IsConsistent : Store → Type 0
IsConsistent s = (k : ℕ) (row : SessionRow) → lookup k s.sessions ≡ some row → IsFiled k row

-- The caller's changes name none of the columns that an update leaves alone.
abbrev pub KeepsIdentity : (SessionView → SessionView) → Type 0
KeepsIdentity changes =
    (v : SessionView)
    → ((changes v).id ≡ v.id)
      × ((changes v).user_id ≡ v.user_id)
      × ((changes v).participant_session_id ≡ v.participant_session_id)
      × ((changes v).created_at ≡ v.created_at)

put-IsConsistent :
    (s : Store) (k : ℕ) (new : SessionRow)
    → IsFiled k new
    → IsConsistent s
    → IsConsistent (record s { sessions = put k new s.sessions })
put-IsConsistent s k new f c j row found = elim (lookup-put-cases k j new row s.sessions found) [
  | inl (same, e) ↦ rw (e, ← same) f
  | inr old ↦ c j row old
]

created-IsConsistent :
    (s s' : Store) (v : SessionView)
    → IsConsistent s
    → create_session v s ≡ some s'
    → IsConsistent s'
unfolding create_session
created-IsConsistent s s' v c h =
    let e : s' ≡ record s { sessions = put v.id (row_of v) s.sessions } = ground arith in
    rw e (put-IsConsistent s v.id (row_of v) (ground arith) c)

updated-IsConsistent :
    (s s' : Store) (w : SessionView) (k now : ℕ) (inc : Bool) (changes : SessionView → SessionView)
    → IsConsistent s
    → KeepsIdentity changes
    → update_session k inc changes now s ≡ some (w, s')
    → IsConsistent s'
unfolding update_session
updated-IsConsistent s s' w k now inc changes c keeps h =
    elim (Option-cases (lookup k s.sessions)) [
      | inl gone ↦ cc (rw (gone, update_session) at h)
      | inr (row, found) ↦
          let new = set_columns row (updated_view inc changes now row.payload) in
          let e : s' ≡ record s { sessions = put k new s.sessions } = ground (arith, found) in
          rw e (put-IsConsistent s k new (ground (arith, keeps row.payload, c k row found)) c)
    ]

-- A session that is created, or updated by changes that keep its identifier, its user, its
-- participant session and its time of creation, leaves every row of the table under its identifier with columns that repeat the
-- payload.
pub writes-IsConsistent :
    (s s' : Store) (v w : SessionView) (k now : ℕ) (inc : Bool)
    (changes : SessionView → SessionView)
    → IsConsistent s
    → KeepsIdentity changes
    → (create_session v s ≡ some s') ⊎ (update_session k inc changes now s ≡ some (w, s'))
    → IsConsistent s'
writes-IsConsistent s s' v w k now inc changes c keeps (inl h) = created-IsConsistent s s' v c h
writes-IsConsistent s s' v w k now inc changes c keeps (inr h) =
    updated-IsConsistent s s' w k now inc changes c keeps h
