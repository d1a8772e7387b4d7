-- ===== src/Realtime/Tests.antt =====
-- Six sockets of one user in one project.
use pro_lens_backend.Base.{ℕ, List, [], ◌∷◌, ◌++◌, ◌≡◌, refl, arith, get, put, Dict}
use pro_lens_backend.Realtime.{Connection, conns_of, connect, evict, remove_oldest}
use pro_lens_backend.Realtime.Sockets.{
  sockets, WithinCap, here, next, connected, Reach-WithinCap, connect_lem,
}

abbrev socket : ℕ → Connection
socket id = record { id = id; user_id = 2 }

abbrev five : Dict (List Connection)
five = (10, socket 1 ∷ socket 2 ∷ socket 3 ∷ socket 4 ∷ socket 5 ∷ []) ∷ []

-- The oldest goes.
sixth_evicts :
    connect 10 (socket 6) five
    ≡ (10, socket 2 ∷ socket 3 ∷ socket 4 ∷ socket 5 ∷ socket 6 ∷ []) ∷ []
unfolding connect evict remove_oldest get put
sixth_evicts = refl

empty-WithinCap : WithinCap []
unfolding get
empty-WithinCap p u = omega arith

Reach-WithinCap_example : WithinCap (connect 10 (socket 2) (connect 10 (socket 1) []))
Reach-WithinCap_example =
    Reach-WithinCap empty-WithinCap
      (next (next here (connected 10 (socket 1))) (connected 10 (socket 2)))

connect_lem_example :
    ((before : List Connection) × (conns_of (get (connect 10 (socket 6) five) 10)
        ≡ before ++ socket 6 ∷ []))
    × (sockets 10 3 (connect 10 (socket 6) five) ≡ sockets 10 3 five)
    × (get (connect 10 (socket 6) five) 11 ≡ get five 11)
connect_lem_example = connect_lem 10 11 3 (socket 6) five refl refl
