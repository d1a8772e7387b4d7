-- ===== src/Discussion/Cursors.antt =====
-- The cursors of app/services/discussion_service.py: the time and the id of a message in a text that
-- clients send back.
use pro_lens_backend.Base.{
  ℕ, Bool, true, false, Option, some, [], ◌∷◌, ◌++◌, ◌==◌, any, ◌≡◌, refl, arith, Result, ok, ◌>>=◌,
  ◌>>◌, raise_unless, or_raise, split_once,
}
use pro_lens_backend.Config.{Text}
use pro_lens_backend.Errors.{Error}

-- What the code takes from Python: `isoformat` and `fromisoformat` (which says whether the time has a
-- zone), the text of a UUID, and base64; the readers fail with an exception that the code catches.
pub record CursorCodec : Type 0 where
  pub isoformat : ℕ → Text
  pub fromisoformat : Text → Option (Bool × ℕ)
  pub uuid_text : ℕ → Text
  pub read_uuid : Text → Option ℕ
  pub b64encode : Text → Text
  pub b64decode : Text → Option Text

-- What their documentation promises: reading gives back what was written, and a written time has its
-- zone and no `|`; an encoded text is empty only if the text is.
pub record IsInverse (codec : CursorCodec) : Type 0 where
  pub time : (t : ℕ) → codec.fromisoformat (codec.isoformat t) ≡ some (true, t)
  pub no_bar : (t : ℕ) → any (λ (c : ℕ). c == 124) (codec.isoformat t) ≡ false
  pub uuid : (u : ℕ) → codec.read_uuid (codec.uuid_text u) ≡ some u
  pub base64 : (s : Text) → codec.b64decode (codec.b64encode s) ≡ some s
  pub not_empty : (c : ℕ) (s : Text) → (d : ℕ) × (r : Text) × (codec.b64encode (c ∷ s) ≡ d ∷ r)

unfoldable pub encode_cursor : CursorCodec → ℕ → ℕ → Text
encode_cursor codec created_at comment_id =
    codec.b64encode (codec.isoformat created_at ++ 124 ∷ codec.uuid_text comment_id)

unfoldable pub decode_cursor : CursorCodec → Text → Result (ℕ × ℕ)
decode_cursor codec cursor = do
  raw ← or_raise (codec.b64decode cursor) (Error.app_exception 422)
  id_raw ← or_raise (split_once 124 raw).1 (Error.app_exception 422)
  created_at ← or_raise (codec.fromisoformat (split_once 124 raw).0) (Error.app_exception 422)
  comment_id ← or_raise (codec.read_uuid id_raw) (Error.app_exception 422)
  raise_unless created_at.0 (Error.app_exception 422)
  ok (created_at.1, comment_id)

split_once-append :
    (s t : Text) → any (λ (c : ℕ). c == 124) s ≡ false → split_once 124 (s ++ 124 ∷ t) ≡ (s, some t)
unfolding split_once
split_once-append [] t h = refl
split_once-append (c ∷ s) t h =
    let rest = split_once-append s t (ground arith) in
    let other : (c == 124) ≡ false = ground arith in rw (other, rest) refl

module _ (codec : CursorCodec) (inverse : IsInverse codec) where
  -- The cursor that is made of a message's time and id is read as that time and id, if the readers of
  -- times, ids and base64 invert the writers.
  pub decode_cursor-encode_cursor :
      (created_at comment_id : ℕ)
      → decode_cursor codec (encode_cursor codec created_at comment_id)
        ≡ ok (created_at, comment_id)
  unfolding decode_cursor encode_cursor
  decode_cursor-encode_cursor t u =
      rw (inverse.base64, split_once-append _ _ (inverse.no_bar t), inverse.time, inverse.uuid) refl
