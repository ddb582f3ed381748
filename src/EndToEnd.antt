-- ===== src/EndToEnd.antt =====
-- The sender's numbering and the receiver's reorder thread together: what one end accepted, the other
-- end delivers.
pub mod Wire
mod Tests
use tcpudp.Base.{
  ℕ, zero, suc, ◌+◌, ◌<◌, ◌≤◌, ◌≡◌, ◌∙◌, refl, sym, ap, ap₂, arith, Bool, true, false, List, [],
  ◌∷◌, Option, none, some, inl, inr, length, drop, map, All, All-map,
}
use tcpudp.Base.Assoc.{lookup}
use tcpudp.Reorder.{DeliveryItem, Reorder, Turn, run, open_state}
use tcpudp.Reorder.Map.{max_id}
use tcpudp.Reorder.Drain.{IsValid, ids, count_up}
use tcpudp.Reorder.Order.{IsItem}
use tcpudp.Reorder.Complete.{Arrives}
use tcpudp.Reorder.Lossless.{Within, run_lossless}
use tcpudp.Reorder.Payload.{ItemOk, run-Ok}
use tcpudp.Channel.Calls.{payload_at}

-- A packet of one of the datagrams: its number and its payload.
abbrev pub Sent : List (List ℕ) → ℕ → List ℕ → Type 0
Sent datagrams id payload = (id < length datagrams) × (payload ≡ payload_at datagrams id)

abbrev pub payloads : List DeliveryItem → List (List ℕ)
payloads = map (λ item. item.payload)

abbrev head_or : ℕ → List ℕ → ℕ
head_or d [] = d
head_or d (x ∷ xs) = x

abbrev tail_of : List ℕ → List ℕ
tail_of [] = []
tail_of (x ∷ xs) = xs

drop-payload :
    (i : ℕ) (ps : List (List ℕ)) → i < length ps → drop i ps ≡ payload_at ps i ∷ drop (suc i) ps
drop-payload i [] h = absurd (omega arith)
drop-payload zero (p ∷ ps) h = refl
drop-payload (suc i) (p ∷ ps) h = drop-payload i ps (omega arith)

drop-beyond : (i : ℕ) (ps : List (List ℕ)) → length ps ≤ i → drop i ps ≡ []
drop-beyond zero [] h = refl
drop-beyond (suc i) [] h = refl
drop-beyond zero (p ∷ ps) h = absurd (omega arith)
drop-beyond (suc i) (p ∷ ps) h = drop-beyond i ps (omega arith)

payloads-drop :
    (ps : List (List ℕ)) (i : ℕ) (items : List DeliveryItem)
    → ids items ≡ count_up i (length items)
    → All (ItemOk (Sent ps)) items
    → length ps ≤ i + length items
    → payloads items ≡ drop i ps
unfolding count_up
payloads-drop ps i [] e h k = sym (drop-beyond i ps (omega arith))
payloads-drop ps i (x ∷ xs) e h k =
    let number : x.message_id ≡ i = ap (head_or 0) e in
    let here : i < length ps = let small = h.0.0 in omega arith in
    ap₂ ◌∷◌ (h.0.1 ∙ ap (payload_at ps) number)
      (payloads-drop ps (suc i) xs (ap tail_of e) h.1 (omega arith))
    ∙ sym (drop-payload i ps here)

-- End to end: if the packets that reach the reorder thread of a new channel are packets of these
-- datagrams, in any order, over any connections and any number of times each, and every one of them
-- arrives before the reorder timeout, then the channel delivers exactly the datagrams, in order and
-- once. Conditions: there are fewer than 2^64 - 1 datagrams, and the clock readings of all turns lie
-- within one timeout, 4 seconds, of `t0`.
pub datagrams_delivered :
    (datagrams : List (List ℕ)) (conns t0 : ℕ) (turns : List Turn)
    → length datagrams < max_id
    → All (λ t. All (λ (x : ℕ × DeliveryItem). ItemOk (Sent datagrams) x.1) t.items) turns
    → ((id : ℕ) → id < length datagrams → Arrives id turns)
    → All (Within t0 4000) turns
    → payloads (run turns (open_state conns)).0 ≡ datagrams
unfolding open_state lookup
datagrams_delivered datagrams conns t0 turns few packets arrive in_time =
    let valid : IsValid (open_state conns) = record { above = tt; next_small = omega arith } in
    let small =
      All-map (λ (t : Turn) h. All-map (λ (x : ℕ × DeliveryItem) k. small_id x k) t.items h) turns
        packets in
    let whole =
      run_lossless t0 (length datagrams) turns (open_state conns) small valid refl in_time
        (inl refl) (λ id lt. inr (arrive id lt)) in
    payloads-drop datagrams 0 (run turns (open_state conns)).0 whole.0
      (run-Ok (Sent datagrams) turns (open_state conns) packets tt) whole.1
  where
    small_id : (x : ℕ × DeliveryItem) → ItemOk (Sent datagrams) x.1 → IsItem x
    small_id x k = let lt = k.0 in omega arith
