-- ===== src/EndToEnd/Tests.antt =====
-- Three datagrams that arrive out of order, one of them twice.
use tcpudp.Base.{ℕ, zero, suc, ◌<◌, ◌≡◌, refl, arith, List, [], ◌∷◌, inl, inr}
use tcpudp.Base.Int.{pos}
use tcpudp.Reorder.{DeliveryItem, Turn, run, open_state}
use tcpudp.Reorder.Complete.{Arrives}
use tcpudp.EndToEnd.{payloads, datagrams_delivered}

abbrev datagrams : List (List ℕ)
datagrams = (1 ∷ 2 ∷ []) ∷ [] ∷ (3 ∷ []) ∷ []

abbrev packet : ℕ → ℕ → List ℕ → ℕ × DeliveryItem
packet now id payload =
    (now, record { message_id = id; payload = payload; source_conn_index = pos 1 })

abbrev turns : List Turn
turns =
    record {
      items = packet 10 2 (3 ∷ []) ∷ packet 11 0 (1 ∷ 2 ∷ []) ∷ [];
      gap_now = 12;
      notify_now = 13;
    }
    ∷ record { items = packet 20 2 (3 ∷ []) ∷ packet 21 1 [] ∷ []; gap_now = 22; notify_now = 23 }
    ∷ []

arrive : (id : ℕ) → id < 3 → Arrives id turns
arrive zero h = inl (inr (inl refl))
arrive (suc zero) h = inr (inl (inr (inl refl)))
arrive (suc (suc zero)) h = inl (inl refl)
arrive (suc (suc (suc n))) h = absurd (omega arith)

datagrams_delivered_example : payloads (run turns (open_state 4)).0 ≡ datagrams
datagrams_delivered_example =
    datagrams_delivered datagrams 4 0 turns (omega arith)
      ((
        ((omega arith, refl), ((omega arith, refl), tt)),
        ((((omega arith, refl), ((omega arith, refl), tt))), tt),
      ))
      arrive (omega arith)
