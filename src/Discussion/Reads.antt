-- ===== src/Discussion/Reads.antt =====
-- The read mark, after a discussion is marked as read or posted to.
use pro_lens_backend.Base.{
  ok, ℕ, ◌≤◌, true, false, Option, some, List, [], ◌∷◌, ◌++◌, ◌>>=◌, ap, any, find, count,
  update_where, ◌≡◌, refl, arith, All, All-append, Bool-cases, inl, inr,
}
use pro_lens_backend.Config.{Text}
use pro_lens_backend.Discussion.Messages.{to_message}
use pro_lens_backend.Model.{Db, User, Project, Comment, ProjectDiscussionRead}
use pro_lens_backend.Discussion.{
  is_mark, set_read, mark_time, upsert_read, get_last_read_at, is_unread, count_unread,
  get_accessible_project, mark_read, new_message, post_message, DiscussionMessage,
}

-- The mark of a list of marks
abbrev mark_of : ℕ → ℕ → List ProjectDiscussionRead → Option ℕ
mark_of p u rs = mark_time (find (is_mark p u) rs)

mark_of-update :
    (now p u : ℕ) (rs : List ProjectDiscussionRead)
    → any (is_mark p u) rs ≡ true
    → mark_of p u (update_where (is_mark p u) (set_read now) rs) ≡ some now
mark_of-update now p u [] h = cc
mark_of-update now p u (r ∷ rs) h = elim (Bool-cases (is_mark p u r)) [
  | inl hit ↦ rw (hit, hit) refl
  | inr miss ↦ rw (miss, miss) (mark_of-update now p u rs (ground arith))
]

mark_of-append :
    (r : ProjectDiscussionRead) (p u : ℕ) (rs : List ProjectDiscussionRead)
    → any (is_mark p u) rs ≡ false
    → is_mark p u r ≡ true
    → mark_of p u (rs ++ r ∷ []) ≡ some r.last_read_at
mark_of-append r p u [] h own = rw own refl
mark_of-append r p u (x ∷ rs) h own =
    let miss : is_mark p u x ≡ false = ground arith in
    rw miss (mark_of-append r p u rs (ground arith) own)

-- One mark for a user and a project, whether it was there or not.
get_last_read_at-upsert_read :
    (now org p u : ℕ) (db : Db) → get_last_read_at p u (upsert_read now org p u db) ≡ some now
unfolding get_last_read_at upsert_read
get_last_read_at-upsert_read now org p u db =
    elim (Bool-cases (any (is_mark p u) db.discussion_reads)) [
      | inl hit ↦ rw hit (mark_of-update now p u db.discussion_reads hit)
      | inr miss ↦ rw miss (mark_of-append _ p u db.discussion_reads miss (ground arith))
    ]

none_after :
    (now p u : ℕ) (cs : List Comment)
    → All (λ (c : Comment). c.created_at ≤ now) cs
    → count (is_unread p u (some now)) cs ≡ 0
none_after now p u [] h = refl
none_after now p u (c ∷ cs) h = ground (arith, h.0, none_after now p u cs h.1)

-- What `unread` reports to the user.
abbrev pub NothingUnread : ℕ → ℕ → ℕ → Db → Type 0
NothingUnread now p u db =
    (get_last_read_at p u db ≡ some now) × (count_unread p u (get_last_read_at p u db) db ≡ 0)

upsert_read-NothingUnread :
    (now org p u : ℕ) (db : Db)
    → All (λ (c : Comment). c.created_at ≤ now) db.comments
    → NothingUnread now p u (upsert_read now org p u db)
unfolding count_unread upsert_read
upsert_read-NothingUnread now org p u db past =
    let mark = get_last_read_at-upsert_read now org p u db in
    (mark, rw mark (none_after now p u db.comments past))

module _ (now project_id org : ℕ) (caller : User) (db : Db) {project : Project}
    (access : get_accessible_project project_id caller db ≡ ok project)
    (in_organization : caller.organization_id ≡ some org)
    (past : All (λ (c : Comment). c.created_at ≤ now) db.comments) where
  mark_read_succeeds :
      mark_read now project_id caller db ≡ ok (now, upsert_read now org project_id caller.id db)
  unfolding mark_read
  mark_read_succeeds = rw access (rw in_organization refl)

  abbrev posted_db : ℕ → Text → Db
  posted_db new_id content = record db {
    comments = db.comments ++ new_message new_id now org project_id content caller ∷ [];
  }

  new_message_shown :
      (new_id : ℕ) (content : Text)
      → (message : DiscussionMessage) × (to_message
            (new_message new_id now org project_id content caller)
            (some caller)
          ≡ ok message)
  unfolding to_message
  new_message_shown new_id content = (_, refl)

  post_message_succeeds :
      (new_id : ℕ) (content : Text)
      → (message : DiscussionMessage) × (post_message new_id now project_id content caller db
          ≡ ok (message, upsert_read now org project_id caller.id (posted_db new_id content)))
  unfolding post_message
  post_message_succeeds new_id content =
      let (message, made) = new_message_shown new_id content in
      let after = upsert_read now org project_id caller.id (posted_db new_id content) in
      (message, rw access (rw in_organization (ap (λ m. m >>= λ shown. ok (shown, after)) made)))

  -- When no message is newer than now, whoever has access to a discussion can mark it as read, and can
  -- post to it: both succeed, and after either the caller's mark is now and the caller has nothing
  -- unread.
  pub reads-NothingUnread :
      (new_id : ℕ) (content : Text)
      → ((r : ℕ × Db) × (mark_read now project_id caller db ≡ ok r)
          × NothingUnread now project_id caller.id r.1)
        × ((r : DiscussionMessage × Db) × (post_message new_id now project_id content caller db
              ≡ ok r)
            × NothingUnread now project_id caller.id r.1)
  reads-NothingUnread new_id content =
      let (message, posted) = post_message_succeeds new_id content in
      let new_past = All-append _ db.comments _ past (omega arith, tt) in
      (
        (_, mark_read_succeeds, upsert_read-NothingUnread now org project_id caller.id db past),
        (
          (message, _),
          posted,
          upsert_read-NothingUnread now org project_id caller.id (posted_db new_id content)
              new_past,
        ),
      )
