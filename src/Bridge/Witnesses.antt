-- ===== src/Bridge/Witnesses.antt =====
-- `connect_with_retry` on a server that is up from the third attempt on.
use mirage_core.Shared.{ℕ, ◌≤◌, ◌≡◌, refl, ◌↔◌, leb, if◌then◌else◌}
use mirage_core.Bridge.Connect.{
  Attempt, Connected, FirstOpened, connect_with_retry, connect_with_retry_iff,
}

abbrev attempt : ℕ → Attempt ℕ
attempt n = if leb 3 n then Attempt.opened n else Attempt.refused "starting up"

connected : connect_with_retry attempt 30 ≡ Connected.connection 3
unfolding connect_with_retry
connected = refl

exhausted : connect_with_retry attempt 2 ≡ Connected.gave_up "starting up"
unfolding connect_with_retry
exhausted = refl

connect_with_retry_iff_example :
    (connect_with_retry attempt 30 ≡ Connected.connection 3)
    ↔ ((k : ℕ) × (1 ≤ k) × (k ≤ 30) × FirstOpened attempt 1 k 3)
connect_with_retry_iff_example = connect_with_retry_iff attempt 30 3
