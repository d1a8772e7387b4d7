-- ===== src/Realtime/Sockets.antt =====
-- The sockets of a user in a project, and the other users', as sockets connect and disconnect.
use mathlib.Core.Path.{subst}
use pro_lens_backend.Base.{
  ℕ, zero, suc, ◌+◌, ◌≤◌, false, List, [], ◌∷◌, ◌++◌, ◌≡◌, refl, ◌∙◌, arith, ◌==◌, ==_refl, count,
  count-append, leb, Dict, get, get-pop, get-put, Bool-cases, Option-cases, inl, inr,
}
use pro_lens_backend.Realtime.{
  Connection, max_sockets_per_user_project, is_of, remove_oldest, evict, conns_of, connect,
  remove_connection, keep_room, disconnect,
}

count-remove_oldest :
    (u v : ℕ) (cs : List Connection) → count (is_of v) (remove_oldest u cs) ≤ count (is_of v) cs
unfolding remove_oldest
count-remove_oldest u v [] = omega arith
count-remove_oldest u v (c ∷ cs) = ground (arith, count-remove_oldest u v cs)

removes_one :
    (u : ℕ) (cs : List Connection) (n : ℕ)
    → count (is_of u) cs ≡ suc n
    → count (is_of u) (remove_oldest u cs) ≡ n
unfolding remove_oldest
removes_one u [] n h = omega (arith, h)
removes_one u (c ∷ cs) n h = ground (arith, removes_one u cs n)

removes_own :
    (u v : ℕ) (cs : List Connection)
    → (u == v) ≡ false
    → count (is_of v) (remove_oldest u cs) ≡ count (is_of v) cs
unfolding remove_oldest
removes_own u v [] h = refl
removes_own u v (c ∷ cs) h = ground (arith, removes_own u v cs h)

-- With as much fuel as the user has connections, the loop ends below the cap.
evict-room :
    (fuel u : ℕ) (cs : List Connection)
    → count (is_of u) cs ≡ fuel
    → count (is_of u) (evict fuel u cs) + 1 ≤ max_sockets_per_user_project
unfolding evict
evict-room zero u cs h = omega (arith, h)
evict-room (suc n) u cs h =
    elim (Bool-cases (leb max_sockets_per_user_project (count (is_of u) cs))) [
      | inl full ↦ rw full (evict-room n u (remove_oldest u cs) (removes_one u cs n h))
      | inr room ↦ rw room (ground arith)
    ]

evict-others :
    (fuel u v : ℕ) (cs : List Connection)
    → (u == v) ≡ false
    → count (is_of v) (evict fuel u cs) ≡ count (is_of v) cs
unfolding evict
evict-others zero u v cs h = refl
evict-others (suc n) u v cs h =
    elim (Bool-cases (leb max_sockets_per_user_project (count (is_of u) cs))) [
      | inl full ↦ rw full (evict-others n u v (remove_oldest u cs) h ∙ removes_own u v cs h)
      | inr room ↦ rw room refl
    ]

-- The sockets of a user in a project.
abbrev pub sockets : ℕ → ℕ → Dict (List Connection) → ℕ
sockets project_id user_id d = count (is_of user_id) (conns_of (get d project_id))

abbrev pub WithinCap : Dict (List Connection) → Type 0
WithinCap d = (p u : ℕ) → sockets p u d ≤ max_sockets_per_user_project

pub data Step (d : Dict (List Connection)) : Dict (List Connection) → Type 0 where
  connected : (p : ℕ) (c : Connection) → Step d (connect p c d)
  disconnected : (p id : ℕ) → Step d (disconnect p id d)

pub data Reach (d : Dict (List Connection)) : Dict (List Connection) → Type 0 where
  here : Reach d d
  next : {e f : Dict (List Connection)} → Reach d e → Step e f → Reach d f

connect_count :
    (u : ℕ) (c : Connection) (cs : List Connection)
    → count (is_of u) cs ≤ max_sockets_per_user_project
    → count (is_of u) (evict (count (is_of c.user_id) cs) c.user_id cs ++ c ∷ [])
      ≤ max_sockets_per_user_project
connect_count u c cs h =
    rw (count-append (is_of u) (evict (count (is_of c.user_id) cs) c.user_id cs) (c ∷ []))
      (elim (Bool-cases (c.user_id == u)) [
        | inl own ↦
            let same : c.user_id ≡ u = ground arith in
            let room : count (is_of u) (evict (count (is_of c.user_id) cs) c.user_id cs) + 1
                ≤ max_sockets_per_user_project =
              subst
                (λ (v : ℕ).
                  count (is_of v) (evict (count (is_of c.user_id) cs) c.user_id cs) + 1
                  ≤ max_sockets_per_user_project)
                same (evict-room (count (is_of c.user_id) cs) c.user_id cs refl) in
            rw own room
        | inr other ↦
            rw (other, evict-others (count (is_of c.user_id) cs) c.user_id u cs other)
              (omega (arith, h))
      ])

connect-WithinCap :
    (p : ℕ) (c : Connection) (d : Dict (List Connection)) → WithinCap d → WithinCap (connect p c d)
unfolding connect
connect-WithinCap p c d cap q u = elim (Bool-cases (p == q)) [
  | inl same ↦
      let here : p ≡ q = ground arith in
      rw
        (
          get-put d p q (
              evict (count (is_of c.user_id) (conns_of (get d p))) c.user_id (conns_of (get d p))
              ++ c ∷ []),
          same,
        )
        (connect_count u c (conns_of (get d p)) (cap p u))
  | inr other ↦
      rw
        (
          get-put d p q (
              evict (count (is_of c.user_id) (conns_of (get d p))) c.user_id (conns_of (get d p))
              ++ c ∷ []),
          other,
        )
        (cap q u)
]

count-remove_connection :
    (id u : ℕ) (cs : List Connection)
    → count (is_of u) (remove_connection id cs) ≤ count (is_of u) cs
unfolding remove_connection
count-remove_connection id u [] = omega arith
count-remove_connection id u (c ∷ cs) = ground (arith, count-remove_connection id u cs)

keep_room-count :
    (d : Dict (List Connection)) (p q u : ℕ) (cs : List Connection)
    → count (is_of u) cs ≤ max_sockets_per_user_project
    → sockets q u d ≤ max_sockets_per_user_project
    → sockets q u (keep_room d p cs) ≤ max_sockets_per_user_project
keep_room-count d p q u [] h k = elim (Bool-cases (p == q)) [
  | inl same ↦ rw (get-pop d p q, same) (omega arith)
  | inr other ↦ rw (get-pop d p q, other) k
]
keep_room-count d p q u (c ∷ cs) h k = elim (Bool-cases (p == q)) [
  | inl same ↦ rw (get-put d p q (c ∷ cs), same) h
  | inr other ↦ rw (get-put d p q (c ∷ cs), other) k
]

disconnect-WithinCap :
    (p id : ℕ) (d : Dict (List Connection)) → WithinCap d → WithinCap (disconnect p id d)
unfolding disconnect
disconnect-WithinCap p id d cap q u = elim (Option-cases (get d p)) [
  | inl missing ↦ rw missing (cap q u)
  | inr (cs, there) ↦
      let before : count (is_of u) cs ≤ max_sockets_per_user_project = rw there at (cap p u) in
      rw there (
        keep_room-count d p q u (remove_connection id cs)
          (omega (arith, before, count-remove_connection id u cs)) (cap q u))
]

-- If no user holds more than five sockets in a project, this stays so whatever sockets connect and
-- disconnect, in whatever order.
pub Reach-WithinCap : {d e : Dict (List Connection)} → WithinCap d → Reach d e → WithinCap e
Reach-WithinCap cap here = cap
Reach-WithinCap cap (next {e = m} r (connected p c)) =
    connect-WithinCap p c m (Reach-WithinCap cap r)
Reach-WithinCap cap (next {e = m} r (disconnected p id)) =
    disconnect-WithinCap p id m (Reach-WithinCap cap r)

-- A socket that connects is the last of its project's, whoever was evicted for it; another user's
-- sockets in the project are as many as before; and another project's are untouched.
pub connect_lem :
    (p q v : ℕ) (c : Connection) (d : Dict (List Connection))
    → (c.user_id == v) ≡ false
    → (p == q) ≡ false
    → ((before : List Connection) × (conns_of (get (connect p c d) p) ≡ before ++ c ∷ []))
      × (sockets p v (connect p c d) ≡ sockets p v d)
      × (get (connect p c d) q ≡ get d q)
unfolding connect
connect_lem p q v c d other elsewhere =
    let conns = conns_of (get d p) in
    let left = evict (count (is_of c.user_id) conns) c.user_id conns in
    (
      (left, rw (get-put d p p (left ++ c ∷ []), ==_refl p) refl),
      rw
          (
            get-put d p p (left ++ c ∷ []),
            ==_refl p,
            count-append (is_of v) left (c ∷ []),
            other,
            evict-others (count (is_of c.user_id) conns) c.user_id v conns other,
          )
          (omega arith),
      rw (get-put d p q (left ++ c ∷ []), elsewhere) refl,
    )
