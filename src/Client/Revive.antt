-- ===== src/Client/Revive.antt =====
-- src/client/Client.cpp, StartWatchdog: a round of the watchdog on a channel with dead slots.
use tcpudp.Base.{
  ℕ, ◌+◌, ◌%◌, ◌^◌, ◌≡◌, refl, ap, ◌∙◌, arith, Bool, true, List, [], ◌∷◌, ◌++◌, some, set, ◌==◌,
  if_true, eq→==, get_elem?,
}
use tcpudp.Base.Int.{pos}
use tcpudp.VcSlots.{VcSlots, replace_connection, get_dead_slots}
use tcpudp.VcSlots.Dead.{replace_each, dead_replaced, up_at}
use tcpudp.Client.{Client, waste_id}
use tcpudp.Client.Splice.{
  SlotOpening, Pending, slot_begin, slot_finish, splice_in, slot_bind, reconnect_slots,
  reconnect_single_slot, dead_of, watchdog_round,
}

-- A round of `ReconnectSingleSlot` in which each call succeeds and no other thread gets in between.
abbrev pub well : ℕ → SlotOpening
well fd = record {
  watchdog_on = true;
  created = some fd;
  connected = true;
  still_valid = true;
  same_epoch = true;
  sent = true;
}

replace-opened :
    (slot fd : ℕ) (v : VcSlots) → (replace_connection (pos slot) fd v).opened ≡ v.opened
unfolding replace_connection
replace-opened slot fd v = ground arith

spliced :
    (v : VcSlots) (p : Pending) (c : Client)
    → v.opened ≡ true
    → (c.reconnect_epoch == p.epoch_at_start) ≡ true
    → (splice_in (some v) p c).0 ≡ record c {
      tcp_sockets = set c.tcp_sockets p.slot p.fd;
      tcp_connection_ids = set c.tcp_connection_ids p.slot p.new_conn_id;
      vc = some (replace_connection (pos p.slot) p.fd v);
    }
spliced v p c o e = ap (λ (r : Client × Bool). r.0) (if_true _ _ o ∙ if_true _ _ e)

single-vc :
    (id slot fd : ℕ) (c : Client) (v : VcSlots)
    → c.vc ≡ some v
    → v.opened ≡ true
    → let c' = reconnect_single_slot id (well fd) slot c in
      (c'.vc ≡ some (replace_connection (pos slot) fd v)) × (c'.closed_fds ≡ c.closed_fds)
unfolding reconnect_single_slot slot_begin slot_finish waste_id
single-vc id slot fd c v e o =
    let p : Pending = record {
      slot = slot;
      fd = fd;
      epoch_at_start = c.reconnect_epoch;
      new_conn_id = c.next_connection_id;
    } in
    let c1 : Client = record c {
      next_connection_id = (c.next_connection_id + 1) % 2 ^ 32;
      binds = c.binds ++ slot_bind id slot c ∷ [];
    } in
    let whole : (splice_in c.vc p c1).0 ≡ (splice_in (some v) p c1).0 =
      ap (λ w. (splice_in w p c1).0) e in
    let done = whole ∙ spliced v p c1 o (eq→== c.reconnect_epoch c.reconnect_epoch refl) in
    (ap (λ (c' : Client). c'.vc) done, ap (λ (c' : Client). c'.closed_fds) done)

reconnect_slots-vc :
    (id : ℕ) (fd : ℕ → ℕ) (slots : List ℕ) (c : Client) (v : VcSlots)
    → c.vc ≡ some v
    → v.opened ≡ true
    → let c' = reconnect_slots id (λ slot. well (fd slot)) slots c in
      (c'.vc ≡ some (replace_each fd slots v)) × (c'.closed_fds ≡ c.closed_fds)
unfolding reconnect_slots replace_each
reconnect_slots-vc id fd [] c v e o = (e, refl)
reconnect_slots-vc id fd (slot ∷ slots) c v e o =
    let (e', f) = single-vc id slot (fd slot) c v e o in
    let c1 = reconnect_single_slot id (well (fd slot)) slot c in
    let v1 = replace_connection (pos slot) (fd slot) v in
    let (e'', f') = reconnect_slots-vc id fd slots c1 v1 e' (replace-opened slot (fd slot) v ∙ o) in
    (e'', f' ∙ f)

-- A round of the watchdog on an open channel, when each call succeeds and no other thread gets in
-- between: afterwards no slot of the channel is dead, each slot that was up has the connection that it had, and nothing is closed.
pub watchdog_revives :
    (id : ℕ) (fd : ℕ → ℕ) (c : Client) (v : VcSlots)
    → c.vc ≡ some v
    → v.opened ≡ true
    → let c' = watchdog_round id (λ slot. well (fd slot)) c in
      (v' : VcSlots) × (c'.vc ≡ some v')
      × (get_dead_slots v' ≡ [])
      × ((i : ℕ)
          → up_at (get_elem? v.connections i) ≡ true
          → get_elem? v'.connections i ≡ get_elem? v.connections i)
      × (c'.closed_fds ≡ c.closed_fds)
unfolding watchdog_round
watchdog_revives id fd c v e o =
    let dead : dead_of c.vc ≡ get_dead_slots v = ap dead_of e ∙ if_true _ _ o in
    let (e', f) = reconnect_slots-vc id fd (get_dead_slots v) c v e o in
    let (none_dead, others) = dead_replaced fd v in
    let run : List ℕ → Client = λ slots. reconnect_slots id (λ slot. well (fd slot)) slots c in
    (
      replace_each fd (get_dead_slots v) v,
      ap (λ slots. (run slots).vc) dead ∙ e',
      none_dead,
      others,
      ap (λ slots. (run slots).closed_fds) dead ∙ f,
    )
