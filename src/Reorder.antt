-- ===== src/Reorder.antt =====
-- src/common/TcpVirtualChannel.{h,cpp}: the reorder thread, which puts the packets that arrive over 32
-- connections back in the order in which they were sent, gives up on a gap after a timeout, and
-- tells the peer what is missing. Clock readings are arguments, in milliseconds; the clock does
-- not go back, so that no difference of two readings is negative. The diagnostics that it logs
-- are left out.
pub mod Map
pub mod Drain
pub mod Order
pub mod Turns
pub mod Complete
pub mod Lossless
pub mod Missing
pub mod Payload
mod Tests
use tcpudp.Base.{
  ℕ, zero, suc, ◌+◌, ◌-◌, ◌%◌, ◌^◌, Bool, true, false, not, ◌||◌, List, [], ◌∷◌, ◌++◌, Option, none,
  some, ltb, leb, ◌==◌, if◌then◌else◌, length, set, contains, replicate,
}
use tcpudp.Base.Int.{ℤ, pos, negsuc, in_range}
use tcpudp.Base.Assoc.{lookup, erase}
use tcpudp.VcPacket.{vc_max_missing_ids_per_notify}

pub record ReceivedItem : Type 0 where
  pub payload : List ℕ
  pub source_conn_index : ℤ

pub record DeliveryItem : Type 0 where
  pub message_id : ℕ
  pub payload : List ℕ
  pub source_conn_index : ℤ

-- `std::map<uint64_t, ReceivedItem>`, by ascending id.
abbrev pub ReceivedMap : Type 0
ReceivedMap = List (ℕ × ReceivedItem)

unfoldable pub try_emplace : ℕ → ReceivedItem → ReceivedMap → ReceivedMap
try_emplace k v [] = (k, v) ∷ []
try_emplace k v ((j, w) ∷ m) =
    let rest = try_emplace k v m in
    if k == j then (j, w) ∷ m else if ltb k j then (k, v) ∷ (j, w) ∷ m else (j, w) ∷ rest

-- What `TcpVirtualChannel` keeps for its reorder thread.
pub record Reorder : Type 0 where
  pub received : ReceivedMap
  pub next_message_id : ℕ
  pub notified_missing_ids : List ℕ
  pub last_delivered_conn_index : ℤ
  pub gap_timer_active : Bool
  pub gap_first_seen : ℕ
  pub last_notify_time : ℕ
  pub reorder_timeout_ms : ℕ
  pub missing_notify_interval_ms : ℕ
  pub last_rx_message_id : List ℕ
  pub last_rx_time : List ℕ
  pub last_rx_valid : List Bool

abbrev pub u64_mod : ℕ
u64_mod = 2 ^ 64

-- `notifiedMissingIds.erase(id)` and `insert(id)`, on a set.
unfoldable pub erase_id : ℕ → List ℕ → List ℕ
erase_id a [] = []
erase_id a (x ∷ xs) = let rest = erase_id a xs in if x == a then rest else x ∷ rest

unfoldable pub insert_ids : List ℕ → List ℕ → List ℕ
insert_ids [] ids = ids
insert_ids (a ∷ new) ids = insert_ids new (if contains a ids then ids else a ∷ ids)

-- The body of the loop of `drainReceivedDataMap`, at the entry that it finds.
unfoldable pub take_next : ReceivedItem → Reorder → DeliveryItem × Reorder
unfolding erase_id
take_next it s = (
  record {
    message_id = s.next_message_id;
    payload = it.payload;
    source_conn_index = it.source_conn_index;
  },
  record s {
    notified_missing_ids = erase_id s.next_message_id s.notified_missing_ids;
    last_delivered_conn_index = it.source_conn_index;
    received = erase s.next_message_id s.received;
    next_message_id = (s.next_message_id + 1) % u64_mod;
  },
)

pub drain_loop : ℕ → Reorder → List DeliveryItem × Reorder
drain_loop zero s = ([], s)
drain_loop (suc fuel) s = elim (lookup s.next_message_id s.received) [
  | none ↦ ([], s)
  | some it ↦
      let (item, s') = take_next it s in
      let (items, s'') = drain_loop fuel s' in (item ∷ items, s'')
]

-- Each round takes an entry out of the map, so the number of entries is fuel enough.
unfoldable pub drain_received_data_map : Reorder → List DeliveryItem × Reorder
unfolding drain_loop
drain_received_data_map s = drain_loop (suc (length s.received)) s

-- The last message seen on a connection.
unfoldable pub record_rx : ℤ → ℕ → ℕ → Reorder → Reorder
record_rx (pos i) id now s =
    if ltb i (length s.last_rx_message_id)
    then record s {
      last_rx_message_id = set s.last_rx_message_id i id;
      last_rx_time = set s.last_rx_time i now;
      last_rx_valid = set s.last_rx_valid i true;
    }
    else s
record_rx (negsuc i) id now s = s

-- One item that `try_dequeue` handed over, with the clock at that moment.
unfoldable pub ingest_one : ℕ × DeliveryItem → Reorder → Reorder
unfolding try_emplace record_rx
ingest_one (now, item) s =
    let source = item.source_conn_index in
    let id = item.message_id in
    let entry : ReceivedItem = record { payload = item.payload; source_conn_index = source } in
    let s' = record_rx source id now s in
    if ltb id s.next_message_id
    then s'
    else record s' { received = try_emplace id entry s.received }

-- The two nested loops over `connReceiveQueues`: the items in the order in which they come out.
unfoldable pub ingest : List (ℕ × DeliveryItem) → Reorder → Reorder
ingest [] s = s
ingest (x ∷ xs) s = ingest xs (ingest_one x s)

first_key : ReceivedMap → ℕ → ℕ
first_key [] default = default
first_key ((k, v) ∷ m) default = k

-- The timeout branch: give up on what lies before the first entry of the map.
unfoldable pub skip_gap : Reorder → List DeliveryItem × Reorder
unfolding first_key
skip_gap s = drain_received_data_map (record s {
  next_message_id = first_key s.received s.next_message_id;
  notified_missing_ids = [];
  gap_timer_active = false;
})

-- Packets are waiting: start the gap timer, or see whether it has run out.
unfoldable pub gap_open : ℕ → Reorder → List DeliveryItem × Reorder
gap_open now s =
    if not s.gap_timer_active
    then ([], record s { gap_first_seen = now; gap_timer_active = true })
    else if leb s.reorder_timeout_ms (now - s.gap_first_seen)
    then skip_gap s
    else ([], s)

unfoldable pub check_gap : ℕ → Reorder → List DeliveryItem × Reorder
check_gap now s = elim s.received [
  | [] ↦ ([], record s { gap_timer_active = false })
  | _ ∷ _ ↦ gap_open now s
]

-- `for (uint64_t id = expected; id < kv.first; ++id)` with `rounds` ids left; `id` stays below a
-- key of the map, so that it does not wrap.
pub collect_ids : List ℕ → ℕ → ℕ → List ℕ → List ℕ
collect_ids notified zero id missing = missing
collect_ids notified (suc rounds) id missing = elim (contains id notified) [
  | true ↦ collect_ids notified rounds (id + 1) missing
  | false ↦
      let more = missing ++ (id ∷ []) in
      elim (leb vc_max_missing_ids_per_notify (length more)) [
        | true ↦ more
        | false ↦ collect_ids notified rounds (id + 1) more
      ]
]

-- `for (const auto &kv : receivedDataMap)`: each key starts anew at the expected id.
pub collect_missing : List ℕ → ℕ → ReceivedMap → List ℕ → List ℕ
unfolding collect_ids
collect_missing notified expected [] missing = missing
collect_missing notified expected ((k, v) ∷ m) missing =
    let more = collect_ids notified (k - expected) expected missing in
    elim (leb vc_max_missing_ids_per_notify (length more)) [
      | true ↦ more
      | false ↦ collect_missing notified expected m more
    ]

abbrev pub missing_ids : Reorder → List ℕ
missing_ids s = collect_missing s.notified_missing_ids s.next_message_id s.received []

abbrev no_entries : ReceivedMap → Bool
no_entries [] = true
no_entries (_ ∷ _) = false

-- `some ids` is the call of `missingNotifyCallback`.
unfoldable pub send_missing_notifications : ℕ → Reorder → Option (List ℕ) × Reorder
unfolding collect_missing insert_ids
send_missing_notifications now s =
    if no_entries s.received || not s.gap_timer_active
    then (none, s)
    else if ltb (now - s.gap_first_seen) s.missing_notify_interval_ms
    then (none, s)
    else elim (missing_ids s) [
      | [] ↦ (none, s)
      | id ∷ ids ↦
          let kept =
            if ltb 1000 (length s.notified_missing_ids) then [] else s.notified_missing_ids in
          (
            some (id ∷ ids),
            record s { notified_missing_ids = insert_ids (id ∷ ids) kept; last_notify_time = now },
          )
    ]

-- One iteration of `reorderThreadFunc` up to its wait: what it took out of the queues, and its
-- clock readings for the gap and for the notification.
pub record Turn : Type 0 where
  pub items : List (ℕ × DeliveryItem)
  pub gap_now : ℕ
  pub notify_now : ℕ

pub record TurnResult : Type 0 where
  pub notice : Option (List ℕ)
  -- the calls of `receiveCallback`, after the notice
  pub delivered : List DeliveryItem
  pub state : Reorder

unfoldable pub turn : Turn → Reorder → TurnResult
turn t s =
    let (first, s1) = drain_received_data_map (ingest t.items s) in
    let (more, s2) = check_gap t.gap_now s1 in
    let (notice, s3) = send_missing_notifications t.notify_now s2 in
    record { notice = notice; delivered = first ++ more; state = s3 }

unfoldable pub run : List Turn → Reorder → List DeliveryItem × Reorder
run [] s = ([], s)
run (t ∷ ts) s =
    let out = turn t s in let (items, s') = run ts out.state in (out.delivered ++ items, s')

-- A new channel's state, with its default timeouts and `conns` connections.
unfoldable pub open_state : ℕ → Reorder
open_state conns = record {
  received = [];
  next_message_id = 0;
  notified_missing_ids = [];
  last_delivered_conn_index = negsuc 0;
  gap_timer_active = false;
  gap_first_seen = 0;
  last_notify_time = 0;
  reorder_timeout_ms = 4000;
  missing_notify_interval_ms = 200;
  last_rx_message_id = replicate conns 0;
  last_rx_time = replicate conns 0;
  last_rx_valid = replicate conns false;
}
