-- ===== src/Outbox/Claims.antt =====
-- What `claim_batch` takes, and what it leaves to other workers.
use pro_lens_backend.Base.{
  ℕ, ◌+◌, ◌≤◌, ◌<◌, ◌≡◌, ◌∙◌, Bool, true, false, List, arith, not, ◌&&◌, length, length-take, All,
  All-intro, All-select_of, All-update_where_of, All-sort, All-take, select, sort, drop, count,
  count-sort, count-take-drop, update_where, sort-IsSorted, IsSorted-take, All-select, Bool-cases,
  inl, inr, refl, none, some, Option, leb, ltb, ◌⊎◌, ◌↔◌, take, All-map_of,
}
use pro_lens_backend.Enums.{OutboxStatus}
use pro_lens_backend.Outbox.{
  EmailOutbox, stale_processing_after, is_due, claim_order, mark_processing, claimable_rows, has_id,
  claim_batch, is_claimable,
}

claim_order_trans :
    (a b c : EmailOutbox) → claim_order a b ≡ true → claim_order b c ≡ true → claim_order a c ≡ true
unfolding claim_order
claim_order_trans a b c h k = ground arith

claim_order_total : (a b : EmailOutbox) → claim_order a b ≡ false → claim_order b a ≡ true
unfolding claim_order
claim_order_total a b h = ground arith

-- The due rows that the limit leaves for a later batch.
pub left_for_later : ℕ → ℕ → (ℕ → Bool) → List EmailOutbox → List EmailOutbox
left_for_later limit now locked rows =
    drop limit (sort claim_order (select (λ row. is_due now row && not (locked row.id)) rows))

and_parts : (a b : Bool) → (a && not b) ≡ true → (a ≡ true) × (b ≡ false)
and_parts a b h = ground arith

-- A row that a worker may claim: its time has come, and it waits, or it is being sent under a lock that
-- is five minutes old.
pub data Due (now : ℕ) (row : EmailOutbox) : Type 0 where
  waits : row.next_attempt_at ≤ now → row.status ≡ OutboxStatus.pending → Due now row
  abandoned :
      (t : ℕ)
      → row.next_attempt_at ≤ now
      → row.status ≡ OutboxStatus.processing
      → row.locked_at ≡ some t
      → t + stale_processing_after ≤ now
      → Due now row

is_due-Due : (now : ℕ) (r : EmailOutbox) → is_due now r ≡ true → Due now r
unfolding is_due
is_due-Due now r h = from_status r.status r.locked_at refl refl (ground arith)
  where
    from_status :
        (status : OutboxStatus) (lock : Option ℕ)
        → r.status ≡ status
        → r.locked_at ≡ lock
        → (leb r.next_attempt_at now && is_claimable now status lock) ≡ true
        → Due now r
    from_status OutboxStatus.pending lock s l due = waits (ground arith) s
    from_status OutboxStatus.processing none s l due = let no : ⊥ = ground arith in absurd no
    from_status OutboxStatus.processing (some t) s l due =
        abandoned t (ground arith) s l (ground arith)
    from_status OutboxStatus.sent lock s l due = let no : ⊥ = ground arith in absurd no
    from_status OutboxStatus.failed lock s l due = let no : ⊥ = ground arith in absurd no

Due-is_due : (now : ℕ) (r : EmailOutbox) → Due now r → is_due now r ≡ true
unfolding is_due
Due-is_due now r (waits time s) = rw s (ground arith)
Due-is_due now r (abandoned t time s l stale) = rw (s, l) (ground arith)

-- Earlier, or at the same time with an id that is not greater
abbrev pub Before : EmailOutbox → EmailOutbox → Type 0
Before r later =
    (r.next_attempt_at < later.next_attempt_at)
    ⊎ ((r.next_attempt_at ≡ later.next_attempt_at) × (r.id ≤ later.id))

claim_order-Before : (r later : EmailOutbox) → claim_order r later ≡ true → Before r later
unfolding claim_order
claim_order-Before r later h = elim (Bool-cases (ltb r.next_attempt_at later.next_attempt_at)) [
  | inl sooner ↦ inl (ground arith)
  | inr not_sooner ↦ inr (ground arith, ground arith)
]

module _ (limit now : ℕ) (locked : ℕ → Bool) (rows : List EmailOutbox)
    (p : EmailOutbox → Bool) where
  -- A batch holds at most `limit` rows, each of them due and not locked by another transaction: its time
  -- has come, and it is pending, or in work under a lock that is at least five minutes old. The batch
  -- and the rows left for later make up all rows that the query's test, which is exactly this, accepts
  -- and nobody has locked; and no row left for later comes before a claimed one in the order of
  -- `next_attempt_at` and `id`.
  pub claimable_rows_lem :
      (length (claimable_rows limit now locked rows) ≤ limit)
      × All (λ r. Due now r × (locked r.id ≡ false)) (claimable_rows limit now locked rows)
      × ((r : EmailOutbox) → (is_due now r ≡ true) ↔ Due now r)
      × (count p (claimable_rows limit now locked rows)
            + count p (left_for_later limit now locked rows)
          ≡ count p (select (λ row. is_due now row && not (locked row.id)) rows))
      × All
          (λ r. All (λ later. Before r later) (left_for_later limit now locked rows))
          (claimable_rows limit now locked rows)
  unfolding claimable_rows left_for_later
  claimable_rows_lem =
      let due = select (λ row. is_due now row && not (locked row.id)) rows in
      let left = drop limit (sort claim_order due) in
      (
        length-take limit (sort claim_order due),
        All-take _ limit (sort claim_order due) (
            All-sort _ claim_order due (
              All-select (λ r. Due now r × (locked r.id ≡ false)) _ rows
                (λ x h.
                  let parts = and_parts (is_due now x) (locked x.id) h in
                  (is_due-Due now x parts.0, parts.1)))),
        (λ r. (is_due-Due now r, Due-is_due now r)),
        count-take-drop p limit (sort claim_order due) ∙ count-sort claim_order p due,
        All-map_of _ _ (take limit (sort claim_order due))
            (λ r ordered. All-map_of _ _ left (λ later h. claim_order-Before r later h) ordered)
            (IsSorted-take claim_order limit (sort claim_order due)
              (sort-IsSorted claim_order claim_order_trans claim_order_total due)),
      )

-- A row just claimed is not due again until the lock has gone stale.
is_due-mark_processing :
    (now later : ℕ) (r : EmailOutbox)
    → later < now + stale_processing_after
    → is_due later (mark_processing now r) ≡ false
unfolding is_due mark_processing
is_due-mark_processing now later r h = ground arith

-- What a claim leaves of its rows: none of them is due at the later time.
abbrev Held : List EmailOutbox → ℕ → EmailOutbox → Type 0
Held claimed later r = has_id claimed r ≡ true → is_due later r ≡ false

not-Held :
    (claimed : List EmailOutbox) (later : ℕ) (l : Bool) (r : EmailOutbox)
    → Held claimed later r
    → (is_due later r && not l) ≡ true
    → has_id claimed r ≡ false
not-Held claimed later l r held chosen = elim (Bool-cases (has_id claimed r)) [
  | inl hit ↦ let free : is_due later r ≡ false = held hit in ground arith
  | inr miss ↦ miss
]

-- Two workers never hold one row: until five minutes have passed since a claim, whatever limit and
-- locks the next claim runs with, it takes none of the rows that were claimed.
pub claim_batch_exclusive :
    (limit now limit' later : ℕ) (locked locked' : ℕ → Bool) (rows : List EmailOutbox)
    → later < now + stale_processing_after
    → All
        (λ r. has_id (claimable_rows limit now locked rows) r ≡ false)
        (claimable_rows limit' later locked' (claim_batch limit now locked rows).1)
claim_batch_exclusive limit now limit' later locked locked' rows soon =
    let claimed = claimable_rows limit now locked rows in
    let table = update_where (has_id claimed) (mark_processing now) rows in
    unfold claim_batch claimable_rows in
    All-take _ limit' _ (
      All-sort _ claim_order _ (
        All-select_of (λ r. Held claimed later r) (λ r. has_id claimed r ≡ false) _ table
          (λ r chosen held. not-Held claimed later (locked' r.id) r held chosen)
          (All-update_where_of (λ _. Unit {0}) (λ r. Held claimed later r) (has_id claimed)
            (mark_processing now) rows (λ r hit _ _. is_due-mark_processing now later r soon)
            (λ r miss _ hit. cc) (All-intro rows (λ _. tt)))))
