-- ===== src/IoThread/Slot.antt =====
-- src/common/TcpVCIoThread.cpp: what one turn of the loop of run() does for one slot, whose connection
-- another thread may have replaced since the turn before.
use tcpudp.Base.{
  ℕ, ◌+◌, ◌<◌, ◌%◌, ◌^◌, ◌≡◌, ◌∙◌, refl, sym, ap, Bool, true, false, List, [], ◌∷◌, ◌++◌, Option,
  none, some, map, flatten, ◌==◌, ==_refl, if◌then◌else◌, if_true, if_false, All, All-append,
  append_assoc, append-nil, length, length-append, arith, lt→ltb,
}
use tcpudp.Bytes.{le_bytes, length-le_bytes}
use tcpudp.VcPacket.{data_type, vc_header, data_packet}
use tcpudp.VcPacket.Message.{Message, payload_of, encode, encode_all, IsMessage}
use tcpudp.IoThread.{ReadBuffer, empty_buffer, Event, data_received, Received, read_from_connection}
use tcpudp.IoThread.Stream.{event}
use tcpudp.IoThread.Delivery.{whole}
use tcpudp.IoThread.Session.{Survives, received, session, session_delivers, session_complete}

-- `prevFds[i]` and `readBuffers[i]`; no descriptor, -1, is `none`.
pub record IoSlot : Type 0 where
  pub prev_fd : Option ℕ
  pub buffer : ReadBuffer

abbrev pub same_fd : Option ℕ → Option ℕ → Bool
same_fd none none = true
same_fd none (some b) = false
same_fd (some a) none = false
same_fd (some a) (some b) = a == b

-- `if (currFd != prevFds[i])`: the descriptors are compared and not the connections, so that a
-- connection that has been replaced by one with the same number counts as the same.
unfoldable pub refresh_slot : Option ℕ → IoSlot → IoSlot
refresh_slot curr slot =
    if same_fd curr slot.prev_fd then slot else record { prev_fd = curr; buffer = empty_buffer }

abbrev read_ready : ℕ → Option ℕ → Bool → List Received → IoSlot → List Event × IoSlot
read_ready conn none ready received slot = ([], slot)
read_ready conn (some fd) false received slot = ([], slot)
read_ready conn (some fd) true received slot =
    let out = read_from_connection conn true slot.buffer received in
    (out.events, record slot { buffer = out.buffer })

-- One turn: `curr` is the descriptor of the slot's connection if it is up, `ready` says whether poll
-- reports it, and `received` what the calls of recv return.
unfoldable pub poll_slot : ℕ → Option ℕ → Bool → List Received → IoSlot → List Event × IoSlot
poll_slot conn curr ready received slot =
    read_ready conn curr ready received (refresh_slot curr slot)

-- The turns in which a connection with this descriptor is ready.
unfoldable pub poll_turns : ℕ → ℕ → List (List Received) → IoSlot → List Event × IoSlot
poll_turns conn fd [] slot = ([], slot)
poll_turns conn fd (rs ∷ wakes) slot =
    let (es, slot') = poll_slot conn (some fd) true rs slot in
    let (later, slot'') = poll_turns conn fd wakes slot' in (es ++ later, slot'')

-- The slot when a connection with this descriptor has been noticed.
abbrev pub clean_slot : ℕ → IoSlot
clean_slot fd = record { prev_fd = some fd; buffer = empty_buffer }

-- The turns of a connection, and then those of the one that has replaced it in the slot.
unfoldable pub handover :
    ℕ → ℕ → List (List Received) → ℕ → List (List Received) → IoSlot → List Event
handover conn fd old fd' new slot =
    let (es, slot') = poll_turns conn fd old slot in es ++ (poll_turns conn fd' new slot').0

-- While the descriptor stays the same, the turns read on in the slot's buffer.
poll_turns-session :
    (conn fd : ℕ) (wakes : List (List Received)) (slot : IoSlot)
    → slot.prev_fd ≡ some fd
    → (poll_turns conn fd wakes slot).0 ≡ (session conn slot.buffer wakes).0
unfolding poll_turns session poll_slot refresh_slot
poll_turns-session conn fd [] slot e = refl
poll_turns-session conn fd (rs ∷ wakes) slot e =
    let same : same_fd (some fd) slot.prev_fd ≡ true = ap (same_fd (some fd)) e ∙ ==_refl fd in
    let out = read_from_connection conn true slot.buffer rs in
    let next : IoSlot = record slot { buffer = out.buffer } in
    let kept : refresh_slot (some fd) slot ≡ slot = if_true _ _ same in
    ap
      (λ (s : IoSlot).
        let o = read_from_connection conn true s.buffer rs in
        o.events ++ (poll_turns conn fd wakes (record s { buffer = o.buffer })).0)
      kept
    ∙ ap (◌++◌ out.events) (poll_turns-session conn fd wakes next e)

poll_turns-fresh :
    (conn fd : ℕ) (wakes : List (List Received)) (slot : IoSlot)
    → same_fd (some fd) slot.prev_fd ≡ false
    → (poll_turns conn fd wakes slot).0 ≡ (session conn empty_buffer wakes).0
unfolding poll_turns session poll_slot refresh_slot
poll_turns-fresh conn fd [] slot differs = refl
poll_turns-fresh conn fd (rs ∷ wakes) slot differs =
    let clean : IoSlot = clean_slot fd in
    let reset : refresh_slot (some fd) slot ≡ clean = if_false _ _ differs in
    let again : refresh_slot (some fd) clean ≡ clean = if_true _ _ (==_refl fd) in
    ap
      (λ (s : IoSlot).
        let o = read_from_connection conn true s.buffer rs in
        o.events ++ (poll_turns conn fd wakes (record s { buffer = o.buffer })).0)
      (reset ∙ sym again)
    ∙ poll_turns-session conn fd (rs ∷ wakes) clean refl

-- A connection that replaces another one with a different descriptor, or one seen to be down, starts
-- with a clean buffer: whatever bytes the old connection left, every message of its own stream is
-- delivered, in order and once. Conditions: it is ready in at least one turn, its stream is made of
-- encoded messages and arrives whole, in any pieces, and its socket does not fail.
pub replaced_complete :
    (conn fd : ℕ) (rs : List Received) (wakes : List (List Received)) (slot : IoSlot)
    (ms : List Message)
    → same_fd (some fd) slot.prev_fd ≡ false
    → All IsMessage ms
    → All Survives (rs ∷ wakes)
    → flatten (map received (rs ∷ wakes)) ≡ encode_all ms
    → (poll_turns conn fd (rs ∷ wakes) slot).0 ≡ map (event conn) ms
replaced_complete conn fd rs wakes slot ms differs h s e =
    poll_turns-fresh conn fd (rs ∷ wakes) slot differs
    ∙ (session_complete conn (rs ∷ wakes) ms h s e).0

poll_turns-fd :
    (conn fd : ℕ) (wakes : List (List Received)) (slot : IoSlot)
    → slot.prev_fd ≡ some fd
    → (poll_turns conn fd wakes slot).1.prev_fd ≡ some fd
unfolding poll_turns poll_slot refresh_slot
poll_turns-fd conn fd [] slot e = e
poll_turns-fd conn fd (rs ∷ wakes) slot e =
    let kept : refresh_slot (some fd) slot ≡ slot =
      if_true _ _ (ap (same_fd (some fd)) e ∙ ==_refl fd) in
    poll_turns-fd conn fd wakes (poll_slot conn (some fd) true rs slot).1
      (ap (λ (s : IoSlot). s.prev_fd) kept ∙ e)

poll_turns-append :
    (conn fd : ℕ) (old new : List (List Received)) (slot : IoSlot)
    → handover conn fd old fd new slot ≡ (poll_turns conn fd (old ++ new) slot).0
unfolding poll_turns handover
poll_turns-append conn fd [] new slot = refl
poll_turns-append conn fd (rs ∷ old) new slot =
    let one = poll_slot conn (some fd) true rs slot in
    append_assoc one.0 (poll_turns conn fd old one.1).0 _
    ∙ ap (◌++◌ one.0) (poll_turns-append conn fd old new one.1)

received-append :
    (old new : List (List Received))
    → flatten (map received (old ++ new)) ≡ flatten (map received old) ++ flatten (map received new)
received-append [] new = refl
received-append (rs ∷ old) new =
    ap (◌++◌ (received rs)) (received-append old new) ∙ sym (append_assoc (received rs) _ _)

-- The front of a data packet that announces the payload `y`: all but the payload.
abbrev pub announced : ℕ → List ℕ → List ℕ
announced id y = vc_header data_type id ++ le_bytes 2 (length y % 2 ^ 16)

announced-encode_all :
    (id : ℕ) (y : List ℕ) → announced id y ++ y ≡ encode_all (payload_of id y ∷ [])
unfolding encode_all encode data_packet
announced-encode_all id y =
    ap (◌∷◌ 0)
      (append_assoc (le_bytes 8 id) (le_bytes 2 (length y % 2 ^ 16)) y ∙ sym (append-nil _))

announced-whole :
    (id : ℕ) (y : List ℕ)
    → 0 < length y
    → whole (length (announced id y)) (payload_of id y ∷ []) ≡ []
unfolding whole
announced-whole id y h =
    let n = length-append (le_bytes 8 id) (le_bytes 2 (length y % 2 ^ 16)) in
    rw (
      lt→ltb (length (announced id y)) (11 + length y)
        (omega (arith, n, length-le_bytes 8 id, length-le_bytes 2 (length y % 2 ^ 16))))

-- A connection that replaces another one is told from it by its descriptor alone. Where the old
-- connection has sent a data packet up to its payload, and the system gives the new socket the
-- number of the old one, whatever the new connection then sends is delivered as the payload of the
-- old connection's packet, in place of its own messages; with another descriptor the turns deliver
-- exactly what the new connection's own stream says. Conditions: the slot's buffer is clean when the
-- old connection starts, the two connections' sockets do not fail, and the new connection sends as
-- many bytes as the old one announced, between 1 and 2000, under a message id below 2^64.
pub reused_fd_misread :
    (conn fd other id : ℕ) (y : List ℕ) (old new : List (List Received))
    → other == fd ≡ false
    → IsMessage (payload_of id y)
    → 0 < length y
    → All Survives old
    → All Survives new
    → flatten (map received old) ≡ announced id y
    → flatten (map received new) ≡ y
    → (handover conn fd old fd new (clean_slot fd) ≡ data_received id y conn ∷ [])
      × (handover conn fd old other new (clean_slot fd) ≡ (session conn empty_buffer new).0)
unfolding handover event
reused_fd_misread conn fd other id y old new differs h some_bytes s s' e e' =
    let m = payload_of id y in
    let slot = clean_slot fd in
    let stream : flatten (map received old) ++ y ≡ encode_all (m ∷ []) =
      ap (λ xs. xs ++ y) e ∙ announced-encode_all id y in
    let both : flatten (map received (old ++ new)) ≡ encode_all (m ∷ []) =
      received-append old new ∙ (ap (◌++◌ (flatten (map received old))) e' ∙ stream) in
    let silent : (poll_turns conn fd old slot).0 ≡ [] =
      poll_turns-session conn fd old slot refl
      ∙ session_delivers conn old y (m ∷ []) (h, tt) s stream
      ∙ ap (λ n. map (event conn) (whole n (m ∷ []))) (ap length e)
      ∙ ap (map (event conn)) (announced-whole id y some_bytes) in
    let fd_kept = poll_turns-fd conn fd old slot refl in
    (
      poll_turns-append conn fd old new slot
          ∙ poll_turns-session conn fd (old ++ new) slot refl
          ∙ (session_complete conn (old ++ new) (m ∷ []) (h, tt) (All-append Survives old new s s')
              both).0,
      ap (λ es. es ++ (poll_turns conn other new (poll_turns conn fd old slot).1).0) silent
          ∙ poll_turns-fresh conn other new (poll_turns conn fd old slot).1
              (ap (same_fd (some other)) fd_kept ∙ differs),
    )
