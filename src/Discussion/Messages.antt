-- ===== src/Discussion/Messages.antt =====
-- Messages as the discussion shows them: `to_message` of app/services/discussion_service.py, with the
-- author's name and initials.
use pro_lens_backend.Base.{
  ℕ, Bool, Option, none, some, List, [], ◌∷◌, ◌++◌, ◌==◌, ◌||◌, ltb, take, map, if◌then◌else◌,
  Result, ok, ◌>>=◌, or_raise, strip, upper, split_words, split_once,
}
use pro_lens_backend.Config.{Text}
use pro_lens_backend.Errors.{Error}
use pro_lens_backend.Model.{Db, User, Comment}
use pro_lens_backend.Repositories.{user_by_id}

pub record DiscussionAuthor : Type 0 where
  pub id : ℕ
  pub name : Text
  pub initials : Text

pub record DiscussionMessage : Type 0 where
  pub id : ℕ
  pub project_id : ℕ
  pub author : DiscussionAuthor
  pub content : Text
  pub created_at : ℕ
  pub edited : Bool

-- `p.strip() for p in (...) if p and p.strip()`
abbrev name_part : Option Text → List Text
name_part none = []
name_part (some p) = elim (strip p) [ [] ↦ [] | c ∷ s ↦ (c ∷ s) ∷ [] ]

-- `" ".join(parts)`, or what stands before the `@` of the address
abbrev joined : List Text → Text → Text
joined [] email = (split_once 64 email).0
joined (a ∷ []) email = a
joined (a ∷ b ∷ _) email = a ++ 32 ∷ b

unfoldable pub author_display_name : User → Text
author_display_name u = joined (name_part u.first_name ++ name_part u.last_name) u.email

-- A dot and an underscore separate words, too.
abbrev as_space : ℕ → ℕ
as_space c = if c == 46 || c == 95 then 32 else c

abbrev first_letter : Text → Text
first_letter [] = []
first_letter (c ∷ _) = c ∷ []

abbrev letters : List Text → Text
letters [] = []
letters (w ∷ ws) = first_letter w ++ letters ws

unfoldable pub author_initials : Text → Text
author_initials name = upper (take 2 (letters (split_words (map as_space name))))

-- The author of a row that the session cannot see is `None`, and the schema wants a project.
unfoldable pub to_message : Comment → Option User → Result DiscussionMessage
unfolding author_display_name author_initials
to_message comment author = do
  user ← or_raise author Error.attribute_error
  project_id ← or_raise comment.project_id Error.value_error
  ok (record {
    id = comment.id;
    project_id = project_id;
    author = record {
      id = user.id;
      name = author_display_name user;
      initials = author_initials (author_display_name user);
    };
    content = comment.content;
    created_at = comment.created_at;
    edited = ltb comment.created_at comment.updated_at;
  })

abbrev pub to_messages : Db → List Comment → Result (List DiscussionMessage)
to_messages db [] = ok []
to_messages db (c ∷ cs) = do
  m ← to_message c (user_by_id c.author_id db)
  ms ← to_messages db cs
  ok (m ∷ ms)
