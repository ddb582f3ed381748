-- ===== src/Status.antt =====
-- src/common/TcpVCWriteThread.h, struct SocketStatus: a connection that lost packets is avoided for a
-- time that doubles with each mark, up to eight times the base. Clock readings are arguments.
use native.Mathlib.Nat.{mul-le-mul_left}
use tcpudp.Base.{
  ℕ, zero, suc, ◌+◌, ◌-◌, ◌*◌, ◌^◌, ◌≤◌, ◌≡◌, min, refl, arith, Bool, true, false, List, [], ◌∷◌,
  ltb, if◌then◌else◌, le→ltb, All, Bool-cases, length, ap, inl, inr, inl, inr,
}

pub record SocketStatus : Type 0 where
  pub is_degraded : Bool
  pub degraded_since_ms : ℕ
  pub degradation_count : ℕ

abbrev pub new_status : SocketStatus
new_status = record { is_degraded = false; degraded_since_ms = 0; degradation_count = 0 }

unfoldable pub mark_degraded : ℕ → SocketStatus → SocketStatus
mark_degraded now s = record {
  is_degraded = true;
  degraded_since_ms = now;
  degradation_count = s.degradation_count + 1;
}

-- `baseMs * (1LL << std::min(count - 1, 3))`, of a count that is at least 1.
abbrev pub effective_ms : ℕ → ℕ → ℕ
effective_ms base_ms count = base_ms * 2 ^ min (count - 1) 3

-- `nowMs - sinceMs < effectiveMs`, where `nowMs` may be the smaller one.
unfoldable pub is_currently_degraded : ℕ → ℕ → SocketStatus → Bool
is_currently_degraded now max_duration s =
    if s.is_degraded
    then ltb now (s.degraded_since_ms + effective_ms max_duration s.degradation_count)
    else false

unfoldable pub recover : SocketStatus → SocketStatus
recover s = record s { is_degraded = false; degradation_count = 0 }

pub data StatusCall : Type 0 where
  marked : ℕ → StatusCall
  recovered : StatusCall

unfoldable pub update_status : StatusCall → SocketStatus → SocketStatus
update_status (marked now) s = mark_degraded now s
update_status recovered s = recover s

abbrev pub update_all : List StatusCall → SocketStatus → SocketStatus
update_all [] s = s
update_all (c ∷ cs) s = update_all cs (update_status c s)

-- Every mark is made at `latest` at the latest.
abbrev pub MarkedBy : ℕ → StatusCall → Type 0
MarkedBy latest (marked now) = now ≤ latest
MarkedBy latest recovered = 0 ≤ latest

since_bound :
    (latest : ℕ) (cs : List StatusCall) (s : SocketStatus)
    → s.degraded_since_ms ≤ latest
    → All (MarkedBy latest) cs
    → (update_all cs s).degraded_since_ms ≤ latest
unfolding update_status mark_degraded recover
since_bound latest [] s h a = h
since_bound latest (marked now ∷ cs) s h a = since_bound latest cs (mark_degraded now s) a.0 a.1
since_bound latest (recovered ∷ cs) s h a = since_bound latest cs (recover s) h a.1

effective_le : (base_ms count : ℕ) → effective_ms base_ms count ≤ base_ms * 8
effective_le base_ms count = mul-le-mul_left base_ms (power_le (min (count - 1) 3) (omega arith))
  where
    power_le : (k : ℕ) → k ≤ 3 → 2 ^ k ≤ 8
    power_le zero h = omega arith
    power_le (suc zero) h = omega arith
    power_le (suc (suc zero)) h = omega arith
    power_le (suc (suc (suc zero))) h = omega arith
    power_le (suc (suc (suc (suc k)))) h = absurd (omega arith)

-- However often a connection was marked and recovered, eight base durations after the last mark it
-- is no longer avoided. Condition: the marks of the calls, made on a new status, are at `latest` at
-- the latest.
avoidance_ends :
    (cs : List StatusCall) (latest now base_ms : ℕ)
    → All (MarkedBy latest) cs
    → latest + base_ms * 8 ≤ now
    → is_currently_degraded now base_ms (update_all cs new_status) ≡ false
unfolding is_currently_degraded
avoidance_ends cs latest now base_ms a h =
    let s = update_all cs new_status in
    let since = since_bound latest cs new_status (omega arith) a in
    let bound = effective_le base_ms s.degradation_count in
    let over : ltb now (s.degraded_since_ms + effective_ms base_ms s.degradation_count) ≡ false =
      le→ltb now _ (omega arith) in
    elim (Bool-cases s.is_degraded) [ inl e ↦ rw (e, over) refl | inr e ↦ rw e refl ]

abbrev pub mark_all : List ℕ → SocketStatus → SocketStatus
mark_all [] s = s
mark_all (t ∷ ts) s = mark_all ts (mark_degraded t s)

count_marks :
    (ts : List ℕ) (s : SocketStatus)
    → (mark_all ts s).degradation_count ≡ s.degradation_count + length ts
unfolding mark_degraded
count_marks [] s = omega arith
count_marks (t ∷ ts) s = let ih = count_marks ts (mark_degraded t s) in omega arith

-- A connection with `n` marks before, and none of them recovered, is avoided after a mark at `last`
-- for exactly the base duration doubled `n` times, three times at most.
pub avoided_exactly :
    (marks : List ℕ) (last now base_ms : ℕ)
    → is_currently_degraded now base_ms (mark_degraded last (mark_all marks new_status))
      ≡ ltb now (last + base_ms * 2 ^ min (length marks) 3)
unfolding is_currently_degraded mark_degraded
avoided_exactly marks last now base_ms =
    let e : (mark_all marks new_status).degradation_count + 1 - 1 ≡ length marks =
      let c = count_marks marks new_status in omega arith in
    ap (λ k. ltb now (last + base_ms * 2 ^ min k 3)) e
