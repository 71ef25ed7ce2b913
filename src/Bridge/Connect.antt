-- ===== src/Bridge/Connect.antt =====
-- bridge/db.py: `connect_with_retry`. `attempt n` is what the n-th call of `psycopg2.connect` gives:
-- a connection, or an `OperationalError` with its message.
use mirage_core.Shared.{
  ℕ, zero, suc, ◌+◌, ◌≤◌, ◌<◌, ◌≡◌, refl, ap, ◌∙◌, ◌↔◌, ◌≢◌, ◌⊎◌, inl, inr, String, Option, none,
  some, arith, sym, Bool-cases, ◌==◌, nat_eq, ==_iff,
}

pub data Attempt (C : Type 0) : Type 0 where
  opened : C → Attempt C
  refused : String → Attempt C

-- A connection, the last error raised again, or the `AssertionError` of a call with no retries.
pub data Connected (C : Type 0) : Type 0 where
  connection : C → Connected C
  gave_up : String → Connected C
  no_attempt : Connected C

module _ {C : Type 0} (attempt : ℕ → Attempt C) where
  raise_last : Option String → Connected C
  raise_last none = Connected.no_attempt
  raise_last (some message) = Connected.gave_up message

  -- The loop from attempt `n` on, with so many attempts left.
  connect_from : ℕ → ℕ → Option String → Connected C
  unfolding raise_last
  connect_from zero n last = raise_last last
  connect_from (suc left) n last = elim (attempt n) [
    | opened c ↦ Connected.connection c
    | refused message ↦ connect_from left (n + 1) (some message)
  ]

  unfoldable pub connect_with_retry : ℕ → Connected C
  unfolding connect_from
  connect_with_retry retries = connect_from retries 1 none

  -- The attempt that opens a connection, with every one before it refused.
  abbrev pub FirstOpened : ℕ → ℕ → C → Type 0
  FirstOpened from k c =
      (attempt k ≡ Attempt.opened c)
      × ((j : ℕ) → from ≤ j → j < k → (message : String) × (attempt j ≡ Attempt.refused message))

  Attempt-cases :
      (a : Attempt C)
      → ((c : C) × (a ≡ Attempt.opened c)) ⊎ ((message : String) × (a ≡ Attempt.refused message))
  Attempt-cases (opened c) = inl (c, refl)
  Attempt-cases (refused message) = inr (message, refl)

  from_opened :
      (left n : ℕ) (last : Option String) (c : C)
      → attempt n ≡ Attempt.opened c
      → connect_from (suc left) n last ≡ Connected.connection c
  unfolding connect_from
  from_opened left n last c e = rw (e, connect_from)

  from_refused :
      (left n : ℕ) (last : Option String) (message : String)
      → attempt n ≡ Attempt.refused message
      → connect_from (suc left) n last ≡ connect_from left (n + 1) (some message)
  unfolding connect_from
  from_refused left n last message e = rw (e, connect_from)

  connection_or : C → Connected C → C
  connection_or d (connection c) = c
  connection_or d _ = d

  connection_injective : (d c : C) → Connected.connection d ≡ Connected.connection c → d ≡ c
  unfolding connection_or
  connection_injective d c e = ap (connection_or d) e

  -- No connection comes of a loop that is over.
  raised : (n : ℕ) (last : Option String) (c : C) → connect_from 0 n last ≢ Connected.connection c
  unfolding connect_from raise_last
  raised n none c e = cc
  raised n (some _) c e = cc

  earlier :
      (n k : ℕ) {message : String}
      → attempt n ≡ Attempt.refused message
      → ((j : ℕ) → n + 1 ≤ j → j < k → (m : String) × (attempt j ≡ Attempt.refused m))
      → (j : ℕ) → n ≤ j
      → j < k
      → (m : String) × (attempt j ≡ Attempt.refused m)
  earlier n k {message} r before j lo hi = elim (Bool-cases (j == n)) [
    | inl same ↦ (message, ap attempt ((==_iff j n).0 same) ∙ r)
    | inr other ↦ before j (ground (arith, ==_iff j n)) hi
  ]

  connect_from-opened :
      (left n : ℕ) (last : Option String) (c : C)
      → connect_from left n last ≡ Connected.connection c
      → (k : ℕ) × (n ≤ k) × (k < n + left) × FirstOpened n k c
  connect_from-opened zero n last c e = absurd (raised n last c e)
  connect_from-opened (suc left) n last c e = elim (Attempt-cases (attempt n)) [
    | inl (d, o) ↦
        let same : d ≡ c = connection_injective d c (sym (from_opened left n last d o) ∙ e) in
        (n, omega arith, omega arith, (o ∙ ap Attempt.opened same, λ j lo hi. absurd (omega arith)))
    | inr (message, r) ↦
        let (k, lo, hi, (o, before)) =
          connect_from-opened left (n + 1) (some message) c
            (sym (from_refused left n last message r) ∙ e) in
        (k, omega arith, omega arith, (o, earlier n k r before))
  ]

  opened-connect_from :
      (left n : ℕ) (last : Option String) (c : C) (k : ℕ)
      → n ≤ k
      → k < n + left
      → FirstOpened n k c
      → connect_from left n last ≡ Connected.connection c
  opened-connect_from zero n last c k lo hi first = absurd (omega arith)
  opened-connect_from (suc left) n last c k lo hi (o, before) = elim (Bool-cases (k == n)) [
    | inl same ↦ from_opened left n last c (ap attempt (sym ((==_iff k n).0 same)) ∙ o)
    | inr other ↦
        let later : n < k = ground (arith, ==_iff k n) in
        let (message, r) = before n (omega arith) later in
        from_refused left n last message r
        ∙ opened-connect_from left (n + 1) (some message) c k (omega arith) (omega arith)
            (o, λ j lo' hi'. before j (omega arith) hi')
  ]

  -- The call returns a connection exactly when it is that of the first attempt, of at most `retries`,
  -- that is not refused.
  pub connect_with_retry_iff :
      (retries : ℕ) (c : C)
      → (connect_with_retry retries ≡ Connected.connection c)
        ↔ ((k : ℕ) × (1 ≤ k) × (k ≤ retries) × FirstOpened 1 k c)
  unfolding connect_with_retry
  connect_with_retry_iff retries c = (
    λ e.
        let (k, lo, hi, first) = connect_from-opened retries 1 none c e in
        (k, lo, omega arith, first),
    λ (k, lo, hi, first). opened-connect_from retries 1 none c k lo (omega arith) first,
  )
