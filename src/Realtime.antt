-- ===== src/Realtime.antt =====
-- app/core/realtime.py: the sockets of the discussion of each project. The event loop runs `connect` up
-- to its first await, and `disconnect`, without interruption, so each is one step on the dict.
pub mod Sockets
mod Tests
use pro_lens_backend.Base.{
  ℕ, zero, suc, Bool, true, false, Option, none, some, List, [], ◌∷◌, ◌++◌, ◌==◌, count, any, leb,
  Dict, get, pop, put, if◌then◌else◌,
}

-- A connection object, by its identity, and its user.
pub record Connection : Type 0 where
  pub id : ℕ
  pub user_id : ℕ

abbrev pub max_sockets_per_user_project : ℕ
max_sockets_per_user_project = 5

abbrev pub is_of : ℕ → Connection → Bool
is_of user_id c = c.user_id == user_id

-- `next(c for c in conns if c.user_id == user_id)`, then `conns.remove(oldest)`.
unfoldable pub remove_oldest : ℕ → List Connection → List Connection
remove_oldest user_id [] = []
remove_oldest user_id (c ∷ cs) =
    let rest = remove_oldest user_id cs in if is_of user_id c then cs else c ∷ rest

-- The loop of `connect`; it ends because each round removes one of the user's connections, and the
-- length of the list is fuel enough.
unfoldable pub evict : ℕ → ℕ → List Connection → List Connection
unfolding remove_oldest
evict zero user_id conns = conns
evict (suc fuel) user_id conns =
    let next = evict fuel user_id (remove_oldest user_id conns) in
    if leb max_sockets_per_user_project (count (is_of user_id) conns) then next else conns

abbrev pub conns_of : Option (List Connection) → List Connection
conns_of none = []
conns_of (some cs) = cs

unfoldable pub connect : ℕ → Connection → Dict (List Connection) → Dict (List Connection)
unfolding evict
connect project_id conn d =
    let conns = conns_of (get d project_id) in
    put d project_id (evict (count (is_of conn.user_id) conns) conn.user_id conns ++ conn ∷ [])

-- `conns.remove(conn)`, if it is there: connections are compared by identity.
unfoldable pub remove_connection : ℕ → List Connection → List Connection
remove_connection id [] = []
remove_connection id (c ∷ cs) =
    let rest = remove_connection id cs in if c.id == id then cs else c ∷ rest

abbrev pub keep_room : Dict (List Connection) → ℕ → List Connection → Dict (List Connection)
keep_room d project_id [] = pop d project_id
keep_room d project_id (c ∷ cs) = put d project_id (c ∷ cs)

abbrev pub disconnect_from :
    Dict (List Connection) → ℕ → ℕ → Option (List Connection) → Dict (List Connection)
disconnect_from d project_id id none = d
disconnect_from d project_id id (some conns) = keep_room d project_id (remove_connection id conns)

unfoldable pub disconnect : ℕ → ℕ → Dict (List Connection) → Dict (List Connection)
unfolding remove_connection
disconnect project_id id d = disconnect_from d project_id id (get d project_id)
