-- ===== src/Client/Stale.antt =====
-- src/client/Client.cpp, ReconnectSingleSlot: a socket that was opened for a channel that is gone.
use tcpudp.Base.{
  ℕ, zero, suc, ◌+◌, ◌%◌, ◌^◌, ◌<◌, ◌≡◌, refl, sym, ap, ◌∙◌, arith, Bool, true, false, List, [],
  ◌∷◌, Option, none, some, ◌==◌, if_true, if_false, if_ind, Bool-cases, inl, inr, ==→eq,
}
use mathlib.Core.Option.{some-injective, none-ne-some}
use tcpudp.VcSlots.{VcSlots}
use tcpudp.Client.{
  Client, Opening, close_fd, close_fds, release, teardown_vc, stop_watchdog, keep_socket, waste_id,
  open_one, open_sockets, publish_vc, start_watchdog, prepare_vc,
}
use tcpudp.Client.Reconnect.{
  Retry, Reconnected, reconnect_loop, reconnect_vc, cleared, close_vc, next_delay, waited,
  first_delay_ms,
}
use tcpudp.Client.Splice.{SlotOpening, Pending, slot_begin, slot_finish, splice_in, open_slot}

release-epoch :
    (v : Option VcSlots) (c : Client) → (release v c).reconnect_epoch ≡ c.reconnect_epoch
unfolding close_fds
release-epoch none c = refl
release-epoch (some v) c = refl

teardown-epoch : (c : Client) → (teardown_vc c).reconnect_epoch ≡ c.reconnect_epoch
unfolding teardown_vc stop_watchdog
teardown-epoch c = release-epoch c.vc (stop_watchdog c)

record Same (epoch : ℕ) (r : Client × Bool) : Type 0 where
  kept : r.0.reconnect_epoch ≡ epoch

open_sockets-Same :
    (id : ℕ) (xs : List Opening) (c : Client) → Same c.reconnect_epoch (open_sockets id xs c)
unfolding open_sockets keep_socket waste_id
open_sockets-Same id [] c = record { kept = refl }
open_sockets-Same id (x ∷ xs) c = by_socket (λ c1. open_sockets-Same id xs c1) x.created
  where
    by_socket :
        ((c1 : Client) → Same c1.reconnect_epoch (open_sockets id xs c1))
        → (o : Option ℕ) → Same c.reconnect_epoch (open_one id x o (open_sockets id xs) c)
    by_socket next none = record { kept = teardown-epoch c }
    by_socket next (some fd) =
        if_ind (Same c.reconnect_epoch) x.connected _ _
          (if_ind (Same c.reconnect_epoch) x.sent _ _ (next (keep_socket id fd c))
            (record { kept = teardown-epoch (close_fd fd (waste_id c)) }))
          (record { kept = teardown-epoch (close_fd fd c) })

publish-epoch : (r : Client × Bool) → (publish_vc r).0.reconnect_epoch ≡ r.0.reconnect_epoch
unfolding start_watchdog
publish-epoch (c, true) = refl
publish-epoch (c, false) = refl

prepare-epoch :
    (id : ℕ) (xs : List Opening) (c : Client)
    → (prepare_vc id xs c).0.reconnect_epoch ≡ c.reconnect_epoch
unfolding prepare_vc
prepare-epoch id xs c =
    publish-epoch (open_sockets id xs (teardown_vc c))
    ∙ (open_sockets-Same id xs (teardown_vc c)).kept
    ∙ teardown-epoch c

close_vc-epoch :
    (v : Option VcSlots) (c : Client) → (close_vc v c).reconnect_epoch ≡ c.reconnect_epoch
unfolding close_fds
close_vc-epoch none c = refl
close_vc-epoch (some v) c = refl

cleared-epoch : (c : Client) → (cleared c).reconnect_epoch ≡ c.reconnect_epoch
unfolding cleared
cleared-epoch c = close_vc-epoch c.vc c

record Kept (epoch : ℕ) (r : Reconnected) : Type 0 where
  kept : r.client.reconnect_epoch ≡ epoch

waited-Kept : (epoch delay : ℕ) (r : Reconnected) → Kept epoch r → Kept epoch (waited delay r)
waited-Kept epoch delay r k = record { kept = k.kept }

reconnect_loop-Kept :
    (left id : ℕ) (retries : ℕ → Retry) (k delay initial epoch : ℕ) (c : Client)
    → c.reconnect_epoch ≡ epoch
    → Kept epoch (reconnect_loop left id retries k delay initial c)
unfolding reconnect_loop
reconnect_loop-Kept zero id retries k delay initial epoch c e = record { kept = e }
reconnect_loop-Kept (suc left) id retries k delay initial epoch c e =
    let r = retries k in
    let p = prepare_vc id r.openings (cleared c) in
    let attempt = prepare-epoch id r.openings (cleared c) ∙ cleared-epoch c ∙ e in
    let rest =
      reconnect_loop-Kept left id retries (k + 1) (next_delay initial (k + 1)) initial epoch p.0
        attempt in
    if_ind (Kept epoch) r.at_head _ _
      (if_ind (Kept epoch) r.at_wait _ _
        (waited-Kept epoch delay _ (
          if_ind (Kept epoch) p.1 _ _ (record { kept = attempt })
            (if_ind (Kept epoch) r.after _ _ rest (record { kept = attempt }))))
        (record { kept = cleared-epoch c ∙ e }))
      (record { kept = e })

-- What was begun carries the epoch of its beginning.
record Begun (c : Client) (r : Client × Option Pending) : Type 0 where
  kept : r.0.reconnect_epoch ≡ c.reconnect_epoch
  carried : (p : Pending) → r.1 ≡ some p → p.epoch_at_start ≡ c.reconnect_epoch

none_pending : (c c1 : Client) → c1.reconnect_epoch ≡ c.reconnect_epoch → Begun c (c1, none)
none_pending c c1 e = record { kept = e; carried = λ p h. absurd (none-ne-some _ h) }

slot_begin-Begun : (id slot : ℕ) (x : SlotOpening) (c : Client) → Begun c (slot_begin id x slot c)
unfolding slot_begin waste_id
slot_begin-Begun id slot x c =
    if_ind (Begun c) x.watchdog_on _ _ (by_socket x.created) (none_pending c c refl)
  where
    by_socket : (o : Option ℕ) → Begun c (open_slot id x slot o c)
    by_socket none = none_pending c c refl
    by_socket (some fd) =
        if_ind (Begun c) x.connected _ _
          (if_ind (Begun c) x.still_valid _ _
            (if_ind (Begun c) x.same_epoch _ _
              (if_ind (Begun c) x.sent _ _
                (record {
                  kept = refl;
                  carried =
                      λ p h. ap (λ (q : Pending). q.epoch_at_start) (sym (some-injective _ _ h));
                })
                (none_pending c (close_fd fd (waste_id c)) refl))
              (none_pending c (close_fd fd (waste_id c)) refl))
            (none_pending c (close_fd fd c) refl))
          (none_pending c (close_fd fd c) refl)

-- Under the lock a socket of another epoch is closed, whatever the channel is.
other_epoch :
    (v : Option VcSlots) (p : Pending) (c : Client)
    → (c.reconnect_epoch == p.epoch_at_start) ≡ false
    → splice_in v p c ≡ (close_fd p.fd c, false)
other_epoch none p c e = refl
other_epoch (some v) p c e = elim (Bool-cases v.opened) [
  | inl o ↦ if_true _ _ o ∙ if_false _ _ e
  | inr o ↦ if_false _ _ o
]

-- When `ReconnectSingleSlot` has sent its bind and waits for the lock, and `ReconnectVC` of the same
-- client has since counted the epoch, below 2^32 before, and made any number of attempts, none included,
-- then it closes its new socket and changes nothing else, whatever channel it finds.
pub stale_never_spliced :
    (id slot : ℕ) (x : SlotOpening) (c c1 : Client) (p : Pending)
    → slot_begin id x slot c ≡ (c1, some p)
    → c.reconnect_epoch < 2 ^ 32
    → (max_retries initial : ℕ) (retries : ℕ → Retry)
    → let c2 = (reconnect_vc id max_retries initial retries c1).client in
      slot_finish p c2 ≡ (close_fd p.fd c2, false)
unfolding slot_finish reconnect_vc stop_watchdog
stale_never_spliced id slot x c c1 p e bound max_retries initial retries =
    let begun = slot_begin-Begun id slot x c in
    let same : c1.reconnect_epoch ≡ c.reconnect_epoch =
      sym (ap (λ (r : Client × Option Pending). r.0.reconnect_epoch) e) ∙ begun.kept in
    let carried = begun.carried p (ap (λ (r : Client × Option Pending). r.1) e) in
    let later =
      reconnect_loop-Kept max_retries id retries 0 first_delay_ms initial
        ((c1.reconnect_epoch + 1) % 2 ^ 32)
        (stop_watchdog (record c1 { reconnect_epoch = (c1.reconnect_epoch + 1) % 2 ^ 32 })) refl in
    let c2 = (reconnect_vc id max_retries initial retries c1).client in
    other_epoch c2.vc p c2 (
      next_differs c2.reconnect_epoch c.reconnect_epoch p.epoch_at_start bound
        (later.kept ∙ ap (λ n. (n + 1) % 2 ^ 32) same) carried)
  where
    next_differs :
        (later epoch start : ℕ)
        → epoch < 2 ^ 32
        → later ≡ (epoch + 1) % 2 ^ 32
        → start ≡ epoch
        → (later == start) ≡ false
    next_differs later epoch start b h k = elim (Bool-cases (later == start)) [
      | inl t ↦ let u = ==→eq later start t in absurd (omega (arith, u, h, k, b))
      | inr t ↦ t
    ]
