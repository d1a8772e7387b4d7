-- ===== src/Discussion/Tests.antt =====
-- The discussion on small inputs, and the witnesses.
use pro_lens_backend.Base.{
  ℕ, ◌+◌, ◌-◌, Bool, true, Option, none, some, List, [], ◌∷◌, ◌≡◌, refl, arith, ok, err, Result,
  map, split_once, upper, split_words,
}
use pro_lens_backend.Config.{Text}
use pro_lens_backend.Errors.{Error}
use pro_lens_backend.Enums.{UserRole}
use pro_lens_backend.Model.{Db, Comment}
use pro_lens_backend.Model.Samples.{person, membership, database}
use pro_lens_backend.Repositories.{user_by_id, active_project, is_member}
use pro_lens_backend.Model.Samples.{project}
use pro_lens_backend.Discussion.{get_accessible_project, mark_read, post_message}
use pro_lens_backend.Discussion.Messages.{
  DiscussionMessage, author_initials, to_message, to_messages,
}
use pro_lens_backend.Discussion.Cursors.{
  CursorCodec, IsInverse, encode_cursor, decode_cursor, decode_cursor-encode_cursor,
}
use pro_lens_backend.Discussion.Order.{thread}
use pro_lens_backend.Discussion.Pages.{read_from, read_from_lem}
use pro_lens_backend.Discussion.Reads.{NothingUnread, reads-NothingUnread}

-- Times and ids as texts of one code point beyond ASCII.
abbrev read_one : Text → Option ℕ
read_one (c ∷ []) = some (c - 200)
read_one _ = none

abbrev read_time : Option ℕ → Option (Bool × ℕ)
read_time none = none
read_time (some t) = some (true, t)

abbrev codec : CursorCodec
codec = record {
  isoformat = λ t. (t + 200) ∷ [];
  fromisoformat = λ s. read_time (read_one s);
  uuid_text = λ u. (u + 200) ∷ [];
  read_uuid = read_one;
  b64encode = λ s. s;
  b64decode = λ s. some s;
}

back : (t : ℕ) → t + 200 - 200 ≡ t
back t = omega arith

codec-IsInverse : IsInverse codec
codec-IsInverse = record {
  time = λ t. rw back refl;
  no_bar = λ t. ground arith;
  uuid = λ u. rw back refl;
  base64 = λ s. refl;
  not_empty = λ c s. (c, s, refl);
}

decode_cursor-encode_cursor_example : decode_cursor codec (encode_cursor codec 5 6) ≡ ok (5, 6)
decode_cursor-encode_cursor_example = decode_cursor-encode_cursor codec codec-IsInverse 5 6

no_bar_example : decode_cursor codec (5 ∷ 6 ∷ []) ≡ err (Error.app_exception 422)
unfolding decode_cursor split_once
no_bar_example = refl

-- "ada.love_lace byron" has the initials "AL".
initials_example :
    author_initials (97 ∷ 100 ∷ 97 ∷ 46 ∷ 108 ∷ 111 ∷ 95 ∷ 108 ∷ 97 ∷ 32 ∷ 98 ∷ []) ≡ 65 ∷ 76 ∷ []
unfolding author_initials upper split_words
initials_example = refl

abbrev comment : ℕ → ℕ → Comment
comment id at = record {
  id = id;
  organization_id = 1;
  author_id = 2;
  parent_comment_id = none;
  project_id = some 10;
  feature_id = none;
  task_id = none;
  content = [];
  created_at = at;
  updated_at = at;
  deleted_at = none;
  deleted_by = none;
}

abbrev talk : Db
talk = record (database (membership 2 ∷ []) []) {
  comments = comment 1 5 ∷ comment 2 7 ∷ comment 3 6 ∷ [];
}

abbrev messages : List DiscussionMessage
unfolding to_message user_by_id
messages = or_else [] (to_messages talk (thread 10 talk))
  where
    or_else : {A : Type 0} → A → Result A → A
    or_else d (err _) = d
    or_else d (ok a) = a

made : to_messages talk (thread 10 talk) ≡ ok messages
unfolding messages
made = refl

-- The newest message stands first.
order_example : map (λ (m : DiscussionMessage). m.id) messages ≡ 2 ∷ 3 ∷ 1 ∷ []
unfolding messages
order_example = refl

access : get_accessible_project 10 (person 2 UserRole.employee) talk ≡ ok project
unfolding get_accessible_project active_project is_member
access = refl

read_from_lem_example : read_from codec 10 (person 2 UserRole.employee) 2 talk 4 none ≡ ok messages
read_from_lem_example =
    read_from_lem codec codec-IsInverse 10 2 (person 2 UserRole.employee) talk (omega arith) access
      (refl, (refl, (refl, tt))) made

reads-NothingUnread_example :
    ((r : ℕ × Db) × (mark_read 9 10 (person 2 UserRole.employee) talk ≡ ok r)
      × NothingUnread 9 10 2 r.1)
    × ((r : DiscussionMessage × Db) × (post_message 4 9 10 [] (person 2 UserRole.employee) talk
          ≡ ok r)
        × NothingUnread 9 10 2 r.1)
reads-NothingUnread_example =
    reads-NothingUnread 9 10 1 (person 2 UserRole.employee) talk access refl
      (omega arith, (omega arith, (omega arith, tt))) 4 []
