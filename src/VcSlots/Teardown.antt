-- ===== src/VcSlots/Teardown.antt =====
-- When a channel of src/common/TcpVirtualChannel.cpp is torn down, and how often that is told.
use tcpudp.Base.{
  ℕ, suc, ◌≤◌, ◌≡◌, refl, ap, ◌∙◌, arith, Bool, true, false, List, [], ◌∷◌, Option, modify, ltb,
  if◌then◌else◌, Bool-cases, inl, inr, ◌⊎◌,
}
use mathlib.Core.Option
use tcpudp.Base.Int.{ℤ, pos, negsuc}
use tcpudp.Connection.{TcpConnection, disconnect}
use tcpudp.VcSlots.{VcSlots, alive_count, disconnect_cb, close_slots, replace_connection}

-- What happens to the slots of a channel: a connection fails, which its thread reports afterwards; a
-- report; a hot-swap; `close`.
pub data Event : Type 0 where
  fails : ℕ → Event
  reports : Event
  replaced : ℤ → ℕ → Event
  closes : Event

abbrev fail_one : Option TcpConnection → Option TcpConnection
fail_one conn = Option.map (λ c. (disconnect c).0) conn

-- The state after an event, and whether the channel's callback was called.
unfoldable pub step : Event → VcSlots → VcSlots × Bool
step (fails slot) v = (record v { connections = modify slot fail_one v.connections }, false)
step reports v = disconnect_cb v
step (replaced slot fd) v = (replace_connection slot fd v, false)
step closes v = ((close_slots v).0, false)

abbrev counted : Bool → ℕ → ℕ
counted told n = if told then suc n else n

-- How often the callback is called.
unfoldable pub calls : List Event → VcSlots → ℕ
calls [] v = 0
calls (e ∷ es) v = let (v', told) = step e v in counted told (calls es v')

step-opened :
    (e : Event) (v : VcSlots)
    → v.opened ≡ false
    → ((step e v).0.opened ≡ false) × ((step e v).1 ≡ false)
unfolding step disconnect_cb close_slots replace_connection
step-opened (fails slot) v h = (h, refl)
step-opened reports v h = ground arith
step-opened (replaced (pos slot) fd) v h = ground arith
step-opened (replaced (negsuc n) fd) v h = (h, refl)
step-opened closes v h = ground arith

-- A report is passed on only by a channel that it closes.
step-told : (e : Event) (v : VcSlots) → (step e v).1 ≡ true → (step e v).0.opened ≡ false
unfolding step disconnect_cb
step-told (fails slot) v h = cc
step-told reports v h = ground arith
step-told (replaced slot fd) v h = cc
step-told closes v h = cc

calls-closed : (es : List Event) (v : VcSlots) → v.opened ≡ false → calls es v ≡ 0
unfolding calls
calls-closed [] v h = refl
calls-closed (e ∷ es) v h =
    let s = step-opened e v h in
    ap (λ told. counted told (calls es (step e v).0)) s.1 ∙ calls-closed es (step e v).0 s.0

-- Whatever happens to a channel, its disconnect callback is called at most once; and a report calls
-- it exactly if the channel is open, has a callback, and has no connection left that is up.
pub told_once :
    (es : List Event) (v : VcSlots)
    → (calls es v ≤ 1)
      × ((disconnect_cb v).1 ≡ (
          if v.opened
          then if ltb 0 (alive_count v.connections) then false else v.has_disconnect_callback
          else false))
unfolding calls disconnect_cb
told_once [] v = (omega arith, ground arith)
told_once (e ∷ es) v =
    (at_most (told_once es (step e v).0).0 (Bool-cases (step e v).1), ground arith)
  where
    at_most :
        calls es (step e v).0 ≤ 1
        → ((step e v).1 ≡ true) ⊎ ((step e v).1 ≡ false)
        → calls (e ∷ es) v ≤ 1
    at_most rest (inl told) =
        let none_left = calls-closed es (step e v).0 (step-told e v told) in
        omega (arith, ap (λ t. counted t (calls es (step e v).0)) told, none_left)
    at_most rest (inr quiet) =
        omega (arith, ap (λ t. counted t (calls es (step e v).0)) quiet, rest)
