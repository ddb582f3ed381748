-- ===== src/Reorder/Lossless.antt =====
-- Runs of the reorder thread in which the gap timer does not run out deliver everything, in turn.
use mathlib.Core.List.{map-append}
use native.Mathlib.Decide.{dec_lt}
use tcpudp.Base.{
  ℕ, zero, suc, ◌+◌, ◌≤◌, ◌<◌, ◌≡◌, ◌∙◌, refl, sym, ap, subst, false, List, [], ◌∷◌, ◌++◌, arith,
  ◌⊎◌, inl, inr, length, length-append, All, append-nil, some,
}
use tcpudp.Base.Assoc.{lookup}
use tcpudp.Reorder.{
  ReceivedItem, ReceivedMap, DeliveryItem, Reorder, ingest, drain_received_data_map, gap_open,
  check_gap, Turn, turn, run,
}
use tcpudp.Reorder.Drain.{IsValid, drain-Drained, drain_received_data_map-Drains, ids, count_up}
use tcpudp.Reorder.Order.{
  IsItem, IsIdle, ingest-keeps, ingest-IsValid, drain-Advances, check_gap-cons,
}
use tcpudp.Reorder.Turns.{send_missing_notifications-Same, turn-InOrder}
use tcpudp.Reorder.Complete.{Has, ItemIn, Arrives, ingest-Has, drain-Has, check_gap-Has}

turn-Has :
    (t : Turn) (s : Reorder) (id : ℕ)
    → All IsItem t.items
    → IsValid s
    → Has s id ⊎ ItemIn id t.items
    → Has (turn t s).state id
unfolding turn
turn-Has t s id h v a =
    let s1 = ingest t.items s in
    let v1 = ingest-IsValid t.items s h v in
    let d = drain-Advances s1 v1 in
    let d1 = drain_received_data_map s1 in
    let c =
      check_gap-Has t.gap_now d1.1.received d1.1 id refl d.valid
        (drain-Has s1 id v1 (ingest-Has t.items s id h v a)) in
    let e = send_missing_notifications-Same t.notify_now (check_gap t.gap_now d1.1).1 in
    elim c [
      | inl old ↦ inl (omega (arith, e.next))
      | inr (it, l) ↦ inr (it, ap (lookup id) e.received ∙ l)
    ]

run-Has :
    (ts : List Turn) (s : Reorder) (id : ℕ)
    → All (λ t. All IsItem t.items) ts
    → IsValid s
    → Has s id ⊎ Arrives id ts
    → Has (run ts s).1 id
unfolding run
run-Has [] s id h v (inl a) = a
run-Has [] s id h v (inr b) = absurd b
run-Has (t ∷ ts) s id h v a =
    run-Has ts (turn t s).state id h.1 (turn-InOrder t s h.0 v).0.valid (elim a [
      | inl here ↦ inl (turn-Has t s id h.0 v (inl here))
      | inr (inl now) ↦ inl (turn-Has t s id h.0 v (inr now))
      | inr (inr later) ↦ inr later
    ])

run-IsIdle :
    (ts : List Turn) (s : Reorder)
    → All (λ t. All IsItem t.items) ts
    → IsValid s
    → IsIdle s
    → IsIdle (run ts s).1
unfolding run
run-IsIdle [] s h v i = i
run-IsIdle (t ∷ ts) s h v i =
    let one = turn-InOrder t s h.0 v in run-IsIdle ts (turn t s).state h.1 one.0.valid one.1

-- The expected packet is the first that is not there.
Has-le-next :
    (s : Reorder) (n : ℕ) → IsIdle s → ((id : ℕ) → id < n → Has s id) → n ≤ s.next_message_id
Has-le-next s n i all = elim (dec_lt s.next_message_id n) [
  | yes h ↦ elim (all s.next_message_id h) [ inl old ↦ absurd (omega arith) | inr (it, e) ↦ cc ]
  | no h ↦ omega arith
]

-- All clock readings of the gap timer lie within one timeout of `t0`.
abbrev pub Within : ℕ → ℕ → Turn → Type 0
Within t0 timeout t = (t0 ≤ t.gap_now) × (t.gap_now < t0 + timeout)

-- A gap that is open was first seen at `t0` or later.
abbrev pub IsRecent : ℕ → Reorder → Type 0
IsRecent t0 s = (s.gap_timer_active ≡ false) ⊎ (t0 ≤ s.gap_first_seen)

-- What the gap check does while the timer has not run out.
record Waits (t0 : ℕ) (s : Reorder) (out : List DeliveryItem × Reorder) : Type 0 where
  nothing : out.0 ≡ []
  next : out.1.next_message_id ≡ s.next_message_id
  recent : IsRecent t0 out.1
  timeout : out.1.reorder_timeout_ms ≡ s.reorder_timeout_ms

gap_open-Waits :
    (now t0 : ℕ) (s : Reorder)
    → t0 ≤ now
    → now < t0 + s.reorder_timeout_ms
    → IsRecent t0 s
    → Waits t0 s (gap_open now s)
unfolding gap_open
gap_open-Waits now t0 s lo hi r = ground arith

check_gap-Waits :
    (now t0 : ℕ) (m : ReceivedMap) (s : Reorder)
    → s.received ≡ m
    → t0 ≤ now
    → now < t0 + s.reorder_timeout_ms
    → IsRecent t0 s
    → Waits t0 s (check_gap now s)
unfolding check_gap
check_gap-Waits now t0 [] s e lo hi r =
    rw (e, check_gap) (record { nothing = refl; next = refl; recent = inl refl; timeout = refl })
check_gap-Waits now t0 (x ∷ m) s e lo hi r =
    subst (Waits t0 s) (sym (check_gap-cons now s x m e)) (gap_open-Waits now t0 s lo hi r)

-- What was delivered is the run of ids from the expected one on, and the state agrees.
record Contiguous (t0 : ℕ) (s : Reorder) (delivered : List DeliveryItem) (s' : Reorder)
    : Type 0 where
  ids_eq : ids delivered ≡ count_up s.next_message_id (length delivered)
  next : s'.next_message_id ≡ s.next_message_id + length delivered
  recent : IsRecent t0 s'
  timeout : s'.reorder_timeout_ms ≡ s.reorder_timeout_ms

turn-Contiguous :
    (t0 : ℕ) (t : Turn) (s : Reorder)
    → All IsItem t.items
    → IsValid s
    → Within t0 s.reorder_timeout_ms t
    → IsRecent t0 s
    → Contiguous t0 s (turn t s).delivered (turn t s).state
unfolding turn
turn-Contiguous t0 t s h v w r =
    let s1 = ingest t.items s in
    let k = ingest-keeps t.items s in
    let v1 = ingest-IsValid t.items s h v in
    let d1 = drain_received_data_map s1 in
    let d = drain-Drained s1 v1 in
    let e = drain_received_data_map-Drains s1 v1 in
    let r1 : IsRecent t0 d1.1 = ground (arith, k, e.gap, e.seen) in
    let to : d1.1.reorder_timeout_ms ≡ s.reorder_timeout_ms = e.timeout ∙ k.3 in
    let c1 = check_gap t.gap_now d1.1 in
    let c = check_gap-Waits t.gap_now t0 d1.1.received d1.1 refl w.0 (omega arith) r1 in
    let f = send_missing_notifications-Same t.notify_now c1.1 in
    let all : d1.0 ++ c1.0 ≡ d1.0 = ap (◌++◌ d1.0) c.nothing ∙ append-nil d1.0 in
    record {
      ids_eq = rw all (d.in_order ∙ ap (λ n. count_up n (length d1.0)) k.0);
      next = rw all (f.next ∙ (c.next ∙ (d.advance ∙ ap (λ n. n + length d1.0) k.0)));
      recent = ground (arith, c.recent, f.gap, f.seen);
      timeout = f.timeout ∙ (c.timeout ∙ to);
    }

count_up-add : (n a b : ℕ) → count_up n a ++ count_up (n + a) b ≡ count_up n (a + b)
unfolding count_up
count_up-add n zero b =
    let e : n + 0 ≡ n = omega arith in let f : 0 + b ≡ b = omega arith in rw (e, f)
count_up-add n (suc a) b =
    let e : n + suc a ≡ suc n + a = omega arith in
    let f : suc a + b ≡ suc (a + b) = omega arith in
    rw (e, f) (ap (◌∷◌ n) (count_up-add (suc n) a b))

run-Contiguous :
    (t0 : ℕ) (ts : List Turn) (s : Reorder)
    → All (λ t. All IsItem t.items) ts
    → IsValid s
    → All (Within t0 s.reorder_timeout_ms) ts
    → IsRecent t0 s
    → Contiguous t0 s (run ts s).0 (run ts s).1
unfolding run count_up
run-Contiguous t0 [] s h v w r = record {
  ids_eq = refl;
  next = omega arith;
  recent = r;
  timeout = refl;
}
run-Contiguous t0 (t ∷ ts) s h v w r =
    let one = turn-Contiguous t0 t s h.0 v w.0 r in
    let out = turn t s in
    let rest =
      run-Contiguous t0 ts out.state h.1 (turn-InOrder t s h.0 v).0.valid
        (subst (λ n. All (Within t0 n) ts) (sym one.timeout) w.1) one.recent in
    let items = (run ts out.state).0 in
    record {
      ids_eq =
          rw
            (
              map-append (λ (item : DeliveryItem). item.message_id) out.delivered items,
              one.ids_eq,
              rest.ids_eq,
              one.next,
              length-append out.delivered items,
            )
            (count_up-add s.next_message_id (length out.delivered) (length items));
      next = omega (arith, rest.next, one.next, length-append out.delivered items);
      recent = rest.recent;
      timeout = rest.timeout ∙ one.timeout;
    }

-- While the reorder timer does not run out, delivery is lossless: what is delivered is a run of
-- consecutive ids from the expected one on, with no gap; if every id below `n` arrives in some
-- turn, in any order and over any connections, then all of them have been delivered at the end; and
-- an id that arrives in some turn, or is in the map at the start, is at the end below the next one
-- expected or in the map, whether or not a gap lies before it.
-- Conditions: the clock readings lie within one timeout of `t0`, no gap was open before `t0`, the
-- expected packet is not in the map at the start, nor any id before it, and ids are below 2^64 - 1.
pub run_lossless :
    (t0 n : ℕ) (ts : List Turn) (s : Reorder)
    → All (λ t. All IsItem t.items) ts
    → IsValid s
    → IsIdle s
    → All (Within t0 s.reorder_timeout_ms) ts
    → IsRecent t0 s
    → ((id : ℕ) → id < n → Has s id ⊎ Arrives id ts)
    → let delivered = (run ts s).0 in
      (ids delivered ≡ count_up s.next_message_id (length delivered))
      × (n ≤ s.next_message_id + length delivered)
      × ((id : ℕ)
          → Has s id ⊎ Arrives id ts
          → (id < s.next_message_id + length delivered)
            ⊎ ((it : ReceivedItem) × (lookup id (run ts s).1.received ≡ some it)))
run_lossless t0 n ts s h v i w r all =
    let c = run-Contiguous t0 ts s h v w r in
    (
      c.ids_eq,
      omega (
        arith,
        c.next,
        Has-le-next (run ts s).1 n (run-IsIdle ts s h v i) (λ id l. run-Has ts s id h v (all id l)),
      ),
      λ id a. elim (run-Has ts s id h v a) [
        | inl old ↦ inl (omega (arith, c.next))
        | inr there ↦ inr there
      ],
    )
