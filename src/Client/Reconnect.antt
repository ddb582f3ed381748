-- ===== src/Client/Reconnect.antt =====
-- src/client/Client.cpp, ReconnectVC: the whole channel is opened again, after growing delays.
use tcpudp.Base.{
  ℕ, zero, suc, ◌+◌, ◌-◌, ◌*◌, ◌%◌, ◌^◌, ◌≤◌, ◌<◌, ◌≡◌, refl, ap, ap₂, ◌∙◌, arith, Bool, true,
  false, List, [], ◌∷◌, Option, none, some, length, ◌==◌, if◌then◌else◌, if_false, if_ind,
}
use mathlib.Core.Bool.{false≢true}
use native.Mathlib.Nat.{mul-le-mul_left, pow-le-pow_right}
use tcpudp.VcSlots.{VcSlots, open_slots}
use tcpudp.Client.Prepare.{Prepared, prepare_all_or_none}
use tcpudp.Client.{Client, Opening, vc_close, clear_sockets, teardown_vc, stop_watchdog, prepare_vc}

-- `ReconnectVC`: a round, with what `running` is at its three tests and what its `PrepareVC` finds.
pub record Retry : Type 0 where
  pub at_head : Bool
  pub at_wait : Bool
  pub after : Bool
  pub openings : List Opening

-- `(retryCount == 1) ? initialBackoffMs : initialBackoffMs * (1 << (retryCount - 1))`, of which the
-- bits that a 32-bit `int` keeps are written: from 2^31 on they are a negative number.
unfoldable pub next_delay : ℕ → ℕ → ℕ
next_delay initial retry_count =
    if retry_count == 1 then initial else initial * (2 ^ (retry_count - 1) % 2 ^ 32) % 2 ^ 32

abbrev pub close_vc : Option VcSlots → Client → Client
close_vc none c = c
close_vc (some v) c = vc_close v c

unfoldable pub cleared : Client → Client
cleared c = clear_sockets (close_vc c.vc c)

-- The client, the result, and the delays that were waited.
pub record Reconnected : Type 0 where
  pub client : Client
  pub success : Bool
  pub delays : List ℕ

abbrev pub waited : ℕ → Reconnected → Reconnected
waited delay r = record r { delays = delay ∷ r.delays }

-- `left` is `maxRetries - retryCount`.
unfoldable pub reconnect_loop : ℕ → ℕ → (ℕ → Retry) → ℕ → ℕ → ℕ → Client → Reconnected
reconnect_loop zero id retries retry_count delay initial c = record {
  client = c;
  success = false;
  delays = [];
}
reconnect_loop (suc left) id retries retry_count delay initial c =
    let r = retries retry_count in
    let (c', success) = prepare_vc id r.openings (cleared c) in
    let ended : Reconnected = record { client = c'; success = success; delays = [] } in
    let rest =
      reconnect_loop left id retries (retry_count + 1) (next_delay initial (retry_count + 1))
        initial c' in
    if r.at_head
    then if r.at_wait
      then waited delay (if success then ended else if r.after then rest else ended)
      else record { client = cleared c; success = false; delays = [] }
    else record { client = c; success = false; delays = [] }

abbrev pub first_delay_ms : ℕ
first_delay_ms = 3000

unfoldable pub reconnect_vc : ℕ → ℕ → ℕ → (ℕ → Retry) → Client → Reconnected
reconnect_vc id max_retries initial retries c =
    reconnect_loop max_retries id retries 0 first_delay_ms initial
      (stop_watchdog (record c { reconnect_epoch = (c.reconnect_epoch + 1) % 2 ^ 32 }))

-- The delay before attempt k + 1: 3000 ms, then the given one, doubled each time.
unfoldable pub delay_at : ℕ → ℕ → ℕ
delay_at initial zero = first_delay_ms
delay_at initial (suc k) = initial * 2 ^ k

unfoldable pub delays_from : ℕ → ℕ → ℕ → List ℕ
delays_from initial k zero = []
delays_from initial k (suc n) = delay_at initial k ∷ delays_from initial (k + 1) n

-- What is shown of the rounds from number k on, of which so many are left.
record Backed (initial k left : ℕ) (r : Reconnected) : Type 0 where
  by_schedule : r.delays ≡ delays_from initial k (length r.delays)
  at_most : length r.delays ≤ left
  opened : r.success ≡ true → (fds : List ℕ) × (r.client.vc ≡ some (open_slots fds true))

-- No delay of so many attempts overflows an `int`.
abbrev pub Fits : ℕ → ℕ → Type 0
Fits initial max_retries = (max_retries ≤ 31) × (initial * 2 ^ (max_retries - 1) < 2 ^ 31)

Fits-delay :
    (initial max_retries k : ℕ)
    → Fits initial max_retries
    → k + 1 ≤ max_retries
    → (2 ^ k < 2 ^ 32) × (initial * 2 ^ k < 2 ^ 31)
Fits-delay initial max_retries k h le =
    let power : 2 ^ k ≤ 2 ^ 30 =
      pow-le-pow_right {n = 2} (omega arith) {i = k} {j = 30} (omega arith) in
    let last : initial * 2 ^ k ≤ initial * 2 ^ (max_retries - 1) =
      mul-le-mul_left initial
        (pow-le-pow_right {n = 2} (omega arith) {i = k} {j = max_retries - 1} (omega arith)) in
    (omega (arith, power), omega (arith, last, h.1))

small_mod : (x : ℕ) → x < 2 ^ 32 → x % 2 ^ 32 ≡ x
small_mod x h = omega arith

next_delay-at :
    (initial max_retries k : ℕ)
    → Fits initial max_retries
    → k + 1 ≤ max_retries
    → next_delay initial (k + 1) ≡ delay_at initial (suc k)
unfolding next_delay delay_at
next_delay-at initial max_retries zero h le = omega arith
next_delay-at initial max_retries (suc k) h le =
    let f = Fits-delay initial max_retries (suc k) h le in
    if_false {b = suc k + 1 == 1} _ _ (ground arith)
    ∙ ap (λ n. initial * (2 ^ n % 2 ^ 32) % 2 ^ 32) {x = suc k + 1 - 1} (omega arith)
    ∙ ap (λ n. initial * n % 2 ^ 32) (small_mod (2 ^ suc k) f.0)
    ∙ small_mod (initial * 2 ^ suc k) (omega (arith, f.1))

ended_at_once :
    (initial k left : ℕ) (c : Client)
    → Backed initial k left (record { client = c; success = false; delays = [] })
unfolding delays_from
ended_at_once initial k left c = record {
  by_schedule = refl;
  at_most = omega arith;
  opened = λ e. absurd (false≢true e);
}

waited-Backed :
    (initial k left delay : ℕ) (r : Reconnected)
    → delay ≡ delay_at initial k
    → Backed initial (k + 1) left r
    → Backed initial k (suc left) (waited delay r)
unfolding delays_from
waited-Backed initial k left delay r e b = record {
  by_schedule = ap₂ (λ d ds. d ∷ ds) e b.by_schedule;
  at_most = omega (arith, b.at_most);
  opened = b.opened;
}

-- A round whose `PrepareVC` has run: it ends with the result of this, or goes on.
attempted :
    (initial k left : ℕ) (c : Client) (xs : List Opening) (p : Client × Bool) (after : Bool)
    (rest : Reconnected)
    → Prepared c xs p
    → Backed initial k left rest
    → Backed initial k left (
        let ended : Reconnected = record { client = p.0; success = p.1; delays = [] } in
        if p.1 then ended else if after then rest else ended)
unfolding delays_from
attempted initial k left c xs (c', true) after rest p b = record {
  by_schedule = refl;
  at_most = omega arith;
  opened = λ e. (_, p.0);
}
attempted initial k left c xs (c', false) true rest p b = b
attempted initial k left c xs (c', false) false rest p b = ended_at_once initial k left c'

reconnect_loop-Backed :
    (max_retries left id : ℕ) (retries : ℕ → Retry) (k delay initial : ℕ) (c : Client)
    → Fits initial max_retries
    → k + left ≤ max_retries
    → delay ≡ delay_at initial k
    → Backed initial k left (reconnect_loop left id retries k delay initial c)
unfolding reconnect_loop
reconnect_loop-Backed max zero id retries k delay initial c h le e = ended_at_once initial k 0 c
reconnect_loop-Backed max (suc left) id retries k delay initial c h le e =
    let r = retries k in
    let p = prepare_vc id r.openings (cleared c) in
    let rest =
      reconnect_loop-Backed max left id retries (k + 1) (next_delay initial (k + 1)) initial p.0 h
        (omega arith)
        (next_delay-at initial max k h (omega arith) ∙ ap (delay_at initial) (omega arith)) in
    if_ind (Backed initial k (suc left)) r.at_head _ _
      (if_ind (Backed initial k (suc left)) r.at_wait _ _
        (waited-Backed initial k left delay _ e (
          attempted initial (k + 1) left (teardown_vc (cleared c)) r.openings p r.after _
            (prepare_all_or_none id r.openings (cleared c)) rest))
        (ended_at_once initial k (suc left) (cleared c)))
      (ended_at_once initial k (suc left) c)

-- `ReconnectVC` always ends, after at most `maxRetries` attempts, whatever `running` is at its tests
-- and whatever the calls return. It waits 3000 ms before the first attempt, `initialBackoffMs`
-- before the second, and from there on twice the last delay before each further one. When it
-- returns true the client has an open channel. Condition: no delay overflows an `int`, that is, at
-- most 31 attempts, and the initial back-off doubled for all but one of them stays below 2^31.
pub reconnect_backs_off :
    (id max_retries initial : ℕ) (retries : ℕ → Retry) (c : Client)
    → Fits initial max_retries
    → let r = reconnect_vc id max_retries initial retries c in
      (r.delays ≡ delays_from initial 0 (length r.delays))
      × (length r.delays ≤ max_retries)
      × (r.success ≡ true → (fds : List ℕ) × (r.client.vc ≡ some (open_slots fds true)))
unfolding reconnect_vc delay_at
reconnect_backs_off id max_retries initial retries c h =
    let b =
      reconnect_loop-Backed max_retries max_retries id retries 0 first_delay_ms initial
        (stop_watchdog (record c { reconnect_epoch = (c.reconnect_epoch + 1) % 2 ^ 32 })) h
        (omega arith) refl in
    (b.by_schedule, b.at_most, b.opened)
