-- ===== src/Discussion.antt =====
-- app/services/discussion_service.py with app/repositories/discussion_repository.py: the thread of a
-- project, read page by page from the newest message, and the mark of what a user has read.
pub mod Cursors
pub mod Messages
pub mod Order
pub mod Pages
pub mod Reads
mod Tests
use pro_lens_backend.Base.{
  ℕ, ◌+◌, Bool, true, false, Option, none, some, List, [], ◌∷◌, ◌++◌, ◌==◌, ◌&&◌, ◌||◌, not,
  is_none, same_id, ltb, any, find, count, select, take, length, map, sort, update_where,
  if◌then◌else◌, Result, ok, err, ◌>>=◌, ◌>>◌, raise_unless, or_raise, strip, upper, split_words,
  split_once,
}
use pro_lens_backend.Config.{Text}
use pro_lens_backend.Errors.{Error, Violation}
use pro_lens_backend.Enums.{is_admin_role}
use pro_lens_backend.Model.{Db, User, Project, Comment, ProjectDiscussionRead}
use pro_lens_backend.Repositories.{active_project, user_by_id, is_member}
use pro_lens_backend.Discussion.Messages.{DiscussionMessage, to_message, to_messages}
use pro_lens_backend.Discussion.Cursors.{CursorCodec, encode_cursor, decode_cursor}

pub record DiscussionPage : Type 0 where
  pub items : List DiscussionMessage
  pub next_cursor : Option Text
  pub has_more : Bool

pub record UnreadRead : Type 0 where
  pub unread_count : ℕ
  pub last_read_at : Option ℕ

-- The order of rows `(created_at, id) < (created_at, id)`
abbrev pub key_lt : ℕ × ℕ → ℕ × ℕ → Bool
key_lt a b = ltb a.0 b.0 || (a.0 == b.0 && ltb a.1 b.1)

abbrev pub key : Comment → ℕ × ℕ
key c = (c.created_at, c.id)

abbrev pub newest_first : Comment → Comment → Bool
newest_first a b = not (key_lt (key a) (key b))

abbrev pub is_before : Option (ℕ × ℕ) → Comment → Bool
is_before none c = true
is_before (some k) c = key_lt (key c) k

abbrev pub in_thread : ℕ → Comment → Bool
in_thread project_id c = same_id c.project_id (some project_id) && is_none c.deleted_at

unfoldable pub list_page : ℕ → ℕ → Option (ℕ × ℕ) → Db → List Comment
list_page project_id limit before db =
    take limit
      (sort newest_first (select (λ c. in_thread project_id c && is_before before c) db.comments))

unfoldable pub get_accessible_project : ℕ → User → Db → Result Project
get_accessible_project project_id caller db = do
  project ← or_raise (active_project project_id db) Error.project_not_found
  raise_unless (same_id (some project.organization_id) caller.organization_id)
      Error.project_not_found
  raise_unless (is_admin_role caller.role || is_member project.id caller.id db)
      Error.project_not_found
  ok project

-- `rows[-1]`. A page with more rows has a last one, since the route asks for at least one.
abbrev pub last {ℓ} : {A : Type ℓ} → List A → Option A
last [] = none
last (a ∷ []) = some a
last (_ ∷ b ∷ rest) = last (b ∷ rest)

abbrev pub cursor_of : Option Comment → Option (ℕ × ℕ)
cursor_of none = none
cursor_of (some c) = some (key c)

-- The key that the next page continues from.
abbrev pub next_key : Bool → List Comment → Option (ℕ × ℕ)
next_key true shown = cursor_of (last shown)
next_key false shown = none

abbrev pub encode_next : CursorCodec → Option (ℕ × ℕ) → Option Text
encode_next codec none = none
encode_next codec (some k) = some (encode_cursor codec k.0 k.1)

-- `decode_cursor(before) if before else None`
unfoldable pub decode_before : CursorCodec → Option Text → Result (Option (ℕ × ℕ))
decode_before codec none = ok none
decode_before codec (some []) = ok none
decode_before codec (some (c ∷ s)) = do k ← decode_cursor codec (c ∷ s); ok (some k)

unfoldable pub list_messages : CursorCodec → ℕ → User → ℕ → Option Text → Db → Result DiscussionPage
unfolding decode_before get_accessible_project list_page to_message
list_messages codec project_id caller limit before db = do
  project ← get_accessible_project project_id caller db
  cursor ← decode_before codec before
  let rows = list_page project_id (limit + 1) cursor db
  let has_more = ltb limit (length rows)
  items ← to_messages db (take limit rows)
  ok (record {
    items = items;
    next_cursor = encode_next codec (next_key has_more (take limit rows));
    has_more = has_more;
  })

abbrev pub is_mark : ℕ → ℕ → ProjectDiscussionRead → Bool
is_mark project_id user_id r = (r.project_id == project_id) && (r.user_id == user_id)

abbrev pub set_read : ℕ → ProjectDiscussionRead → ProjectDiscussionRead
set_read now r = record r { last_read_at = now }

-- `ON CONFLICT DO UPDATE` on the unique (user, project)
unfoldable pub upsert_read : ℕ → ℕ → ℕ → ℕ → Db → Db
upsert_read now organization_id project_id user_id db = record db {
  discussion_reads =
      if any (is_mark project_id user_id) db.discussion_reads
      then update_where (is_mark project_id user_id) (set_read now) db.discussion_reads
      else db.discussion_reads
        ++ (record {
          organization_id = organization_id;
          user_id = user_id;
          project_id = project_id;
          last_read_at = now;
        })
          ∷ [];
}

abbrev mark_time : Option ProjectDiscussionRead → Option ℕ
mark_time none = none
mark_time (some r) = some r.last_read_at

unfoldable pub get_last_read_at : ℕ → ℕ → Db → Option ℕ
get_last_read_at project_id user_id db =
    mark_time (find (is_mark project_id user_id) db.discussion_reads)

abbrev pub is_after : Option ℕ → Comment → Bool
is_after none c = true
is_after (some t) c = ltb t c.created_at

abbrev pub is_unread : ℕ → ℕ → Option ℕ → Comment → Bool
is_unread project_id user_id last_read_at c =
    in_thread project_id c && not (c.author_id == user_id) && is_after last_read_at c

unfoldable pub count_unread : ℕ → ℕ → Option ℕ → Db → ℕ
count_unread project_id user_id last_read_at db =
    count (is_unread project_id user_id last_read_at) db.comments

unfoldable pub unread : ℕ → User → Db → Result UnreadRead
unfolding get_accessible_project get_last_read_at count_unread
unread project_id caller db = do
  project ← get_accessible_project project_id caller db
  let last_read_at = get_last_read_at project_id caller.id db
  ok (record {
    unread_count = count_unread project_id caller.id last_read_at db;
    last_read_at = last_read_at;
  })

-- The project is the caller's, so that the caller has an organization.
unfoldable pub mark_read : ℕ → ℕ → User → Db → Result (ℕ × Db)
unfolding get_accessible_project upsert_read
mark_read now project_id caller db = do
  project ← get_accessible_project project_id caller db
  org ← or_raise caller.organization_id (Error.integrity_error Violation.not_null)
  ok (now, upsert_read now org project_id caller.id db)

abbrev pub new_message : ℕ → ℕ → ℕ → ℕ → Text → User → Comment
new_message new_id now org project_id content caller = record {
  id = new_id;
  organization_id = org;
  author_id = caller.id;
  parent_comment_id = none;
  project_id = some project_id;
  feature_id = none;
  task_id = none;
  content = content;
  created_at = now;
  updated_at = now;
  deleted_at = none;
  deleted_by = none;
}

unfoldable pub post_message : ℕ → ℕ → ℕ → Text → User → Db → Result (DiscussionMessage × Db)
unfolding get_accessible_project upsert_read to_message
post_message new_id now project_id content caller db = do
  project ← get_accessible_project project_id caller db
  org ← or_raise caller.organization_id (Error.integrity_error Violation.not_null)
  let comment = new_message new_id now org project_id content caller
  message ← to_message comment (some caller)
  ok (
    message,
    upsert_read now org project_id caller.id (record db { comments = db.comments ++ comment ∷ [] }),
  )
