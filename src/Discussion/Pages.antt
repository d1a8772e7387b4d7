-- ===== src/Discussion/Pages.antt =====
-- A client of the discussion that follows `next_cursor`.
use pro_lens_backend.Base.{
  ℕ, zero, suc, ◌+◌, ◌<◌, ◌≤◌, true, false, Option, none, some, List, [], ◌∷◌, ◌++◌, ltb, take,
  drop, length, UniqueKeys, ◌≡◌, refl, ◌∙◌, ap, arith, Bool-cases, inl, inr, Result, ok, err, ◌>>=◌,
  bind-eq-ok,
}
use pro_lens_backend.Config.{Text}
use pro_lens_backend.Errors.{Error}
use pro_lens_backend.Model.{Db, User, Project, Comment}
use pro_lens_backend.Discussion.{
  key, last, next_key, encode_next, decode_before, get_accessible_project, list_messages,
}
use pro_lens_backend.Discussion.Messages.{DiscussionMessage, to_message, to_messages}
use pro_lens_backend.Repositories.{user_by_id}
use pro_lens_backend.Discussion.Cursors.{
  CursorCodec, IsInverse, encode_cursor, decode_cursor, decode_cursor-encode_cursor,
}
use pro_lens_backend.Discussion.Order.{
  thread, thread_before, thread_before-none, list_page_lem, next_rest,
}

-- The client's loop, with as many requests as it may make.
abbrev pub read_from :
    CursorCodec → ℕ → User → ℕ → Db → ℕ → Option Text → Result (List DiscussionMessage)
read_from codec project_id caller limit db zero before = err Error.value_error
read_from codec project_id caller limit db (suc n) before = do
  page ← list_messages codec project_id caller limit before db
  elim page.next_cursor [
    | none ↦ ok page.items
    | some cursor ↦ do
      rest ← read_from codec project_id caller limit db n (some cursor)
      ok (page.items ++ rest)
  ]

-- Pages of a list
module _ {ℓ} {A : Type ℓ} where
  take-take : (n : ℕ) (xs : List A) → take n (take (suc n) xs) ≡ take n xs
  take-take zero xs = refl
  take-take (suc n) [] = refl
  take-take (suc n) (x ∷ xs) = ap (λ t. x ∷ t) (take-take n xs)

  longer-take : (n : ℕ) (xs : List A) → ltb n (length (take (suc n) xs)) ≡ ltb n (length xs)
  longer-take zero [] = refl
  longer-take zero (x ∷ xs) = ground arith
  longer-take (suc n) [] = refl
  longer-take (suc n) (x ∷ xs) = ground (arith, longer-take n xs)

  take-all : (n : ℕ) (xs : List A) → ltb n (length xs) ≡ false → take n xs ≡ xs
  take-all zero [] h = refl
  take-all zero (x ∷ xs) h = let no : ⊥ = ground arith in absurd no
  take-all (suc n) [] h = refl
  take-all (suc n) (x ∷ xs) h = ap (λ t. x ∷ t) (take-all n xs (ground arith))

  length-drop :
      (n : ℕ) (xs : List A) → ltb n (length xs) ≡ true → length (drop n xs) + n ≡ length xs
  length-drop zero xs h = omega arith
  length-drop (suc n) [] h = ground arith
  length-drop (suc n) (x ∷ xs) h = ground (arith, length-drop n xs)

  last-some : (x : A) (xs : List A) → (y : A) × (last (x ∷ xs) ≡ some y)
  last-some x [] = (x, refl)
  last-some x (y ∷ ys) = last-some y ys

  last-take :
      (n : ℕ) (xs : List A)
      → 1 ≤ n
      → ltb n (length xs) ≡ true
      → (y : A) × (last (take n xs) ≡ some y)
  last-take zero xs h k = absurd (let no : ⊥ = omega arith in no)
  last-take (suc n) [] h k = absurd (let no : ⊥ = ground arith in no)
  last-take (suc n) (x ∷ xs) h k = last-some x (take n xs)

to_messages-split :
    (db : Db) (n : ℕ) (cs : List Comment) {ms : List DiscussionMessage}
    → to_messages db cs ≡ ok ms
    → (a : List DiscussionMessage) × (b : List DiscussionMessage) × (to_messages db (take n cs)
        ≡ ok a)
      × (to_messages db (drop n cs) ≡ ok b)
      × (ms ≡ a ++ b)
to_messages-split db zero cs {ms} h = ([], ms, refl, h, refl)
to_messages-split db (suc n) [] {ms} h = ([], [], refl, refl, cc)
to_messages-split db (suc n) (c ∷ cs) {ms} h =
    let (m, head, h1) =
      bind-eq-ok (to_message c (user_by_id c.author_id db))
        (λ m. to_messages db cs >>= λ ms'. ok (m ∷ ms')) h in
    let (rest, tail, h2) = bind-eq-ok (to_messages db cs) (λ ms'. ok (m ∷ ms')) h1 in
    let (a, b, taken, dropped, e) = to_messages-split db n cs tail in
    let same : ms ≡ m ∷ rest = cc in
    (m ∷ a, b, rw (head, taken) refl, dropped, same ∙ ap (λ t. m ∷ t) e)

module _ (codec : CursorCodec) (inverse : IsInverse codec) where
  -- A cursor is no empty text, which would mean the first page.
  encode_cursor-not_empty : (t u : ℕ) → (d : ℕ) × (r : Text) × (encode_cursor codec t u ≡ d ∷ r)
  unfolding encode_cursor
  encode_cursor-not_empty t u = start (codec.isoformat t)
    where
      start :
          (s : Text)
          → (d : ℕ) × (r : Text) × (codec.b64encode (s ++ 124 ∷ codec.uuid_text u) ≡ d ∷ r)
      start [] = inverse.not_empty 124 (codec.uuid_text u)
      start (c ∷ s) = inverse.not_empty c (s ++ 124 ∷ codec.uuid_text u)

  decode_before-encode_cursor :
      (t u : ℕ) → decode_before codec (some (encode_cursor codec t u)) ≡ ok (some (t, u))
  unfolding decode_before
  decode_before-encode_cursor t u =
      let (d, r, e) = encode_cursor-not_empty t u in
      let inv = decode_cursor-encode_cursor codec inverse t u in
      let read : decode_cursor codec (d ∷ r) ≡ ok (t, u) = rw e at inv in rw (e, read) refl

module _ (codec : CursorCodec) (project_id limit : ℕ) (caller : User) (db : Db) {project : Project}
    (access : get_accessible_project project_id caller db ≡ ok project) where
  -- One page
  list_messages_lem :
      (before : Option Text) (c : Option (ℕ × ℕ)) {ms : List DiscussionMessage}
      → decode_before codec before ≡ ok c
      → to_messages db (take limit (thread_before project_id c db)) ≡ ok ms
      → let rest = thread_before project_id c db in
        list_messages codec project_id caller limit before db
        ≡ ok (record {
          items = ms;
          next_cursor = encode_next codec (next_key (ltb limit (length rest)) (take limit rest));
          has_more = ltb limit (length rest);
        })
  unfolding list_messages
  list_messages_lem before c {ms} decoded made =
      let one_more : limit + 1 ≡ suc limit = omega arith in
      rw
        (
          access,
          decoded,
          one_more,
          list_page_lem project_id (suc limit) c db,
          take-take limit (thread_before project_id c db),
          longer-take limit (thread_before project_id c db),
          made,
        )
        refl

module _ (codec : CursorCodec) (inverse : IsInverse codec) (project_id limit : ℕ) (caller : User)
    (db : Db) {project : Project} (positive : 1 ≤ limit)
    (access : get_accessible_project project_id caller db ≡ ok project)
    (unique : UniqueKeys (λ (c : Comment). c.id) db.comments) where
  read_from_cursor :
      (n : ℕ) (before : Option Text) (c : Option (ℕ × ℕ)) {ms : List DiscussionMessage}
      → decode_before codec before ≡ ok c
      → to_messages db (thread_before project_id c db) ≡ ok ms
      → length (thread_before project_id c db) < n
      → read_from codec project_id caller limit db n before ≡ ok ms
  read_from_cursor zero before c decoded made enough = absurd (let no : ⊥ = omega arith in no)
  read_from_cursor (suc n) before c {ms} decoded made enough =
      elim (Bool-cases (ltb limit (length (thread_before project_id c db)))) [
        | inl more ↦
            let rest = thread_before project_id c db in
            let (a, b, taken, dropped, e) = to_messages-split db limit rest made in
            let (x, at_end) = last-take limit rest positive more in
            let page =
              list_messages_lem codec project_id limit caller db access before c decoded taken in
            let next = decode_before-encode_cursor codec inverse x.created_at x.id in
            let after = next_rest project_id limit c db unique at_end in
            let others =
              read_from_cursor n (some (encode_cursor codec x.created_at x.id)) (some (key x))
                {ms = b} next (rw after dropped)
                (rw after
                  (let l = length-drop limit rest more in omega (arith, l, enough, positive))) in
            rw (page, more, at_end, others, e) refl
        | inr done ↦
            let rest = thread_before project_id c db in
            let whole : to_messages db (take limit rest) ≡ ok ms =
              rw (take-all limit rest done) made in
            let page =
              list_messages_lem codec project_id limit caller db access before c decoded whole in
            rw (page, done) refl
      ]

  -- Whoever has access to the discussion of a project and follows `next_cursor` from the first page
  -- gets, after at most one request more than there are messages, all messages of the thread, each
  -- once and the newest first, for any page size of at least one, if the ids of comments are unique,
  -- every message has an author that can be read, and the readers of cursors invert the writers.
  pub read_from_lem :
      {ms : List DiscussionMessage}
      → to_messages db (thread project_id db) ≡ ok ms
      → read_from codec project_id caller limit db (length (thread project_id db) + 1) none ≡ ok ms
  unfolding decode_before
  read_from_lem {ms} made =
      let all = thread_before-none project_id db in
      read_from_cursor (length (thread project_id db) + 1) none none refl (rw all made)
        (rw all (omega arith))
