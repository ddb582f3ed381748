-- ===== src/EndToEnd/Wire.antt =====
-- The send thread of one end (src/common/TcpVCSendThread.cpp) and the reader of the other
-- (src/common/TcpVCIoThread.cpp), with a connection between them.
use tcpudp.Base.{
  All-get_elem?, ℕ, ◌≡◌, ◌∙◌, refl, ap, subst, true, List, [], ◌∷◌, ◌++◌, some, All, flatten, map,
  get_elem?,
}
use tcpudp.Connection.{TcpConnection}
use tcpudp.VcPacket.Message.{Message, encode, encode_all, IsMessage}
use tcpudp.IoThread.{Received, empty_buffer}
use tcpudp.IoThread.Stream.{event}
use tcpudp.IoThread.Session.{received, Survives, session, session_complete}
use tcpudp.SendThread.{Event, run}
use tcpudp.SendThread.State.{SendThread, Link}
use tcpudp.SendThread.Framing.{IsFramed, LinkOk, Carries}
use tcpudp.SendThread.Framing.Rounds.{run-IsFramed}

-- The bytes of a well-formed message.
abbrev pub IsEncoded : List ℕ → Type 0
IsEncoded bytes = (m : Message) × IsMessage m × (bytes ≡ encode m)

messages_of :
    (packets : List (List ℕ))
    → All IsEncoded packets
    → (ms : List Message) × All IsMessage ms × (flatten packets ≡ encode_all ms)
unfolding encode_all
messages_of [] h = ([], tt, refl)
messages_of (packet ∷ packets) ((m, ok, e), h) =
    let (ms, all, rest) = messages_of packets h in
    (m ∷ ms, (ok, all), ap (λ b. b ++ flatten packets) e ∙ ap (◌++◌ (encode m)) rest)

-- Whatever the clock, the kernel and the sockets answer, over any number of rounds and hot-swaps of a send thread: what
-- it has written on a connection that is up is the encoding of a list of well-formed messages, and the other end,
-- when it has received all of this, cut into reads and wake-ups in any way, has made exactly the callbacks of these
-- messages, in order and once each. Conditions: at the start what is on connections that are up, in the queues and
-- retained are encoded messages, and the receiver starts with an empty buffer and its connection survives.
pub stream_delivered :
    (es : List Event) (s : SendThread)
    → IsFramed IsEncoded s
    → (i : ℕ) (link : Link) (c : TcpConnection) → get_elem? (run es s).connections i ≡ some link
    → link.connection ≡ some c
    → c.connected ≡ true
    → (ms : List Message) × All IsMessage ms
      × (link.stream ≡ encode_all ms)
      × ((conn : ℕ) (wakes : List (List Received))
          → All Survives wakes
          → flatten (map received wakes) ≡ link.stream
          → (session conn empty_buffer wakes).0 ≡ map (event conn) ms)
stream_delivered es s v i link c at_slot e up =
    let framed = run-IsFramed IsEncoded es s v in
    let ok : LinkOk IsEncoded link =
      All-get_elem? (LinkOk IsEncoded) (run es s).connections i link framed.links at_slot in
    let (packets, all, whole) = subst (λ o. Carries IsEncoded o link.stream) e ok up in
    let (ms, good, same) = messages_of packets all in
    (
      ms,
      good,
      whole ∙ same,
      λ conn wakes alive all_read.
          (session_complete conn wakes ms good alive (all_read ∙ whole ∙ same)).0,
    )
