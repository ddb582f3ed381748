-- ===== src/Server/Stale.antt =====
-- A client that starts over while the server still has its channel. `close` of a channel does not run
-- the disconnect callback (src/common/TcpVirtualChannel.cpp calls it from `disconnectCB` alone), so that
-- the peer and its old sockets stay.
use tcpudp.Base.{
  ℕ, ◌≤◌, ◌≡◌, ◌∙◌, refl, ap, ap₂, arith, true, List, [], ◌∷◌, none, some, length, map, leb,
  ==_refl, if_true,
}
use tcpudp.Base.Int.{negsuc}
use tcpudp.Base.Assoc.{lookup, insert, lookup-insert, lookup-erase}
use tcpudp.VcPacket.{vc_tcp_connections}
use tcpudp.Uvt.{MsgBind}
use tcpudp.Server.{
  VirtualChannel, Peer, Server, vc_add, vc_get, is_some, slots_of, add_peer_found, close_socket,
  close_all, add_peer, add_socket, tear_down, open_sockets,
}
use tcpudp.Server.Accept.{
  goes_on, bound, connect, link_slots, create_channel, join_peer, complete_peer, by_channel,
  with_channel, accumulate, accept, note_id,
}

close_all-kept :
    (sockets : List ℕ) (s : Server)
    → ((close_all sockets s).peers ≡ s.peers) × ((close_all sockets s).vcs ≡ s.vcs)
close_all-kept [] s = (refl, refl)
close_all-kept (socket ∷ sockets) s = close_all-kept sockets (close_socket socket s)

pub note_id-kept :
    (socket : ℕ) (bind : MsgBind) (s : Server)
    → ((note_id socket bind s).peers ≡ s.peers)
      × ((note_id socket bind s).vcs ≡ s.vcs)
      × ((note_id socket bind s).closed ≡ s.closed)
note_id-kept socket bind s = ground arith

-- What `create_channel` makes when there is a UDP socket.
abbrev pub created : ℕ → ℕ → Peer → Server → Server
created client udp peer s =
    let (ids, slots) =
      link_slots 0 peer.sockets s.socket_to_conn_id
        (slots_of (lookup client s.client_conn_slots)) in
    record (vc_add client (map connect peer.sockets) s) {
      socket_to_conn_id = ids;
      client_conn_slots = insert client slots s.client_conn_slots;
      peers = insert client (record peer { udp_socket = some udp }) s.peers;
    }

-- A full peer without a channel: the new socket is closed, and a channel is made of the old sockets.
accumulate_full :
    (socket udp : ℕ) (bind : MsgBind) (s : Server) (peer : Peer)
    → lookup bind.client_id s.peers ≡ some peer
    → vc_get bind.client_id s ≡ none
    → vc_tcp_connections ≤ length peer.sockets
    → accumulate socket bind (some udp) s
      ≡ goes_on (created bind.client_id udp peer (close_socket socket (note_id socket bind s)))
unfolding accumulate add_peer add_socket create_channel
accumulate_full socket udp bind s peer has_peer no_vc full =
    let c = bind.client_id in
    let n = note_id socket bind s in
    let kept = note_id-kept socket bind s in
    let found : lookup c n.peers ≡ some peer = ap (lookup c) kept.0 ∙ has_peer in
    let gone : vc_get c n ≡ none = ap (lookup c) kept.1 ∙ no_vc in
    let closed : Server = close_socket socket n in
    let is_full : leb vc_tcp_connections (length peer.sockets) ≡ true = ground arith in
    ap (λ m. join_peer c socket (lookup c m.peers) (some udp) m)
      (ap₂ (λ p v. add_peer_found c p (is_some v) n) found gone)
    ∙ (ap (λ p. join_peer c socket p (some udp) n) found
        ∙ (ap (λ m. complete_peer c (lookup c m.peers) (some udp) m) (if_true _ _ is_full)
            ∙ (ap (λ p. complete_peer c p (some udp) closed) found ∙ if_true _ _ is_full)))

-- An initial connection of a client whose channel and full peer the server still has: the channel
-- that the server sets up is made of the sockets that the peer held, the sockets of the old channel
-- that were up have been closed, and so has the new socket. Conditions: the client has a channel
-- and a peer with 32 sockets or more, the slot index sent is negative, and a UDP socket can be made.
pub stale_peer_reused :
    (socket udp : ℕ) (bind : MsgBind) (s : Server) (vc : VirtualChannel) (peer : Peer) (n : ℕ)
    → vc_get bind.client_id s ≡ some vc
    → lookup bind.client_id s.peers ≡ some peer
    → vc_tcp_connections ≤ length peer.sockets
    → bind.slot_index ≡ negsuc n
    → (t : Server) × (accept socket (bound bind) (some udp) s ≡ goes_on t)
      × (vc_get bind.client_id t ≡ some (map connect peer.sockets))
      × (t.closed ≡ socket ∷ (close_all (open_sockets vc) s).closed)
unfolding accept tear_down
stale_peer_reused socket udp bind s vc peer n has_vc has_peer full initial =
    let c = bind.client_id in
    let torn = tear_down c vc s in
    let kept = close_all-kept (open_sockets vc) s in
    let noted = note_id-kept socket bind torn in
    let no_vc : vc_get c torn ≡ none =
      lookup-erase c c (close_all (open_sockets vc) s).vcs ∙ if_true _ _ (==_refl c) in
    let m = close_socket socket (note_id socket bind torn) in
    (
      created c udp peer m,
      ap (λ v. by_channel socket bind (some udp) v s) has_vc
          ∙ (ap (λ i. with_channel socket bind i (some udp) vc s) initial
              ∙ accumulate_full socket udp bind torn peer (ap (lookup c) kept.0 ∙ has_peer) no_vc
                  full),
      lookup-insert c c (map connect peer.sockets) m.vcs ∙ if_true _ _ (==_refl c),
      ap (◌∷◌ socket) noted.2,
    )
