-- ===== src/Users/Reach.antt =====
-- Any sequence of requests on accounts, by any callers.
use pro_lens_backend.Base.{ℕ, false, ◌≡◌, has_key, ok, Ensures-ok}
use pro_lens_backend.Model.{Db, User}
use pro_lens_backend.Users.{UserCreate, UserUpdate, Passwords}
use pro_lens_backend.Users.Operations.{create_user, update_user, delete_user}
use pro_lens_backend.Users.LastAdmin.{
  key, KeepsAdmin, delete_user-KeepsAdmin, update_user-KeepsAdmin,
}
use pro_lens_backend.Users.Soundness.{
  IsSound, create_user-IsSound, create_user-KeepsAdmin, delete_user-IsSound, update_user-IsSound,
}

-- A request that returns, and is committed. The id of a new user is fresh.
pub data Step (db db' : Db) : Type 0 where
  created :
      (p : Passwords) (designation_id user_id : ℕ) (caller : User) (payload : UserCreate) (u : User)
      → has_key key user_id db.users ≡ false
      → create_user p designation_id user_id caller payload db ≡ ok (u, db')
      → Step db db'
  updated :
      (p : Passwords) (now : ℕ) (caller : User) (id : ℕ) (payload : UserUpdate) (u : User)
      → update_user p now caller id payload db ≡ ok (u, db')
      → Step db db'
  deleted : (now : ℕ) (caller : User) (id : ℕ) → delete_user now caller id db ≡ ok db' → Step db db'

pub data Reach (db : Db) : Db → Type 0 where
  here : Reach db db
  next : {d e : Db} → Reach db d → Step d e → Reach db e

-- From users with unique ids among whom every employee has a designation, after any sequence of
-- successful requests that make users with fresh ids, change them and delete them, the same holds; and
-- an organization that had an active admin still has one.
pub Reach-KeepsAdmin :
    (org : ℕ) {d e : Db} → IsSound d → KeepsAdmin org d → Reach d e → IsSound e × KeepsAdmin org e
Reach-KeepsAdmin org s a here = (s, a)
Reach-KeepsAdmin org {d} s a (next {d = m} r (created p i j c payload u fresh h)) =
    let (s', a') = Reach-KeepsAdmin org s a r in
    (
      Ensures-ok _ _ (create_user-IsSound p i j c payload m fresh s') h,
      Ensures-ok _ _ (create_user-KeepsAdmin org p i j c payload m a') h,
    )
Reach-KeepsAdmin org {d} s a (next {d = m} r (updated p now c id payload u h)) =
    let (s', a') = Reach-KeepsAdmin org s a r in
    (
      Ensures-ok _ _ (update_user-IsSound p now c id payload m s') h,
      Ensures-ok _ _ (update_user-KeepsAdmin org p now c id payload m s'.unique a') h,
    )
Reach-KeepsAdmin org {d} s a (next {d = m} r (deleted now c id h)) =
    let (s', a') = Reach-KeepsAdmin org s a r in
    (
      Ensures-ok _ _ (delete_user-IsSound now c id m s') h,
      Ensures-ok _ _ (delete_user-KeepsAdmin org now c id m s'.unique a') h,
    )
