-- ===== src/Channel/Keeps.antt =====
-- What the handlers of the peer's requests leave alone in a channel, and how they change its resend
-- queue.
use tcpudp.Base.{
  ℕ, ◌≡◌, ◌∙◌, refl, sym, List, [], ◌∷◌, Option, none, some, Bool-cases, inl, inr, if_true,
  if_false, subst,
}
use tcpudp.Base.Int.{ℤ, pos, negsuc}
use tcpudp.Base.Assoc.{lookup}
use tcpudp.Cache.{find}
use tcpudp.Tracker.{get_connection_index}
use tcpudp.Channel.{
  Channel, degrade_at, degrade, resend_callback, resend_found, resend_once, expire_pending,
  packet_payload, process_resend_request, process_missing_id, process_missing_ids,
  process_missing_notify,
}

-- The fields on which the sending of datagrams goes on.
pub record Keeps (before after : Channel) : Type 0 where
  pub still_open : after.opened ≡ before.opened
  pub same_id : after.last_send_message_id ≡ before.last_send_message_id
  pub same_queue : after.send_queue ≡ before.send_queue
  pub same_cache : after.sent_data_cache ≡ before.sent_data_cache

Keeps-refl : (ch : Channel) → Keeps ch ch
Keeps-refl ch = record { still_open = refl; same_id = refl; same_queue = refl; same_cache = refl }

pub Keeps-trans : (a b c : Channel) → Keeps a b → Keeps b c → Keeps a c
Keeps-trans a b c h k = record {
  still_open = k.still_open ∙ h.still_open;
  same_id = k.same_id ∙ h.same_id;
  same_queue = k.same_queue ∙ h.same_queue;
  same_cache = k.same_cache ∙ h.same_cache;
}

degrade_at-Keeps : (now : ℕ) (i : ℤ) (ch : Channel) → Keeps ch (degrade_at now i ch)
degrade_at-Keeps now (pos i) ch = record {
  still_open = refl;
  same_id = refl;
  same_queue = refl;
  same_cache = refl;
}
degrade_at-Keeps now (negsuc i) ch = Keeps-refl ch

pub degrade-Keeps : (now id : ℕ) (ch : Channel) → Keeps ch (degrade now id ch)
unfolding degrade
degrade-Keeps now id ch = degrade_at-Keeps now (get_connection_index id ch.message_tracker) ch

degrade_at-pending :
    (now : ℕ) (i : ℤ) (ch : Channel)
    → (degrade_at now i ch).pending_resend_ids ≡ ch.pending_resend_ids
degrade_at-pending now (pos i) ch = refl
degrade_at-pending now (negsuc i) ch = refl

pub degrade-pending :
    (now id : ℕ) (ch : Channel) → (degrade now id ch).pending_resend_ids ≡ ch.pending_resend_ids
unfolding degrade
degrade-pending now id ch = degrade_at-pending now (get_connection_index id ch.message_tracker) ch

degrade_at-resend_queue :
    (now : ℕ) (i : ℤ) (ch : Channel) → (degrade_at now i ch).resend_queue ≡ ch.resend_queue
degrade_at-resend_queue now (pos i) ch = refl
degrade_at-resend_queue now (negsuc i) ch = refl

pub degrade-resend_queue :
    (now id : ℕ) (ch : Channel) → (degrade now id ch).resend_queue ≡ ch.resend_queue
unfolding degrade
degrade-resend_queue now id ch =
    degrade_at-resend_queue now (get_connection_index id ch.message_tracker) ch

pub resend_callback-Keeps :
    (id : ℕ) (payload : List ℕ) (ch : Channel) → Keeps ch (resend_callback id payload ch)
unfolding resend_callback
resend_callback-Keeps id payload ch = elim (Bool-cases ch.opened) [
  | inl e ↦
      subst (Keeps ch) (sym (if_true _ ch e))
        (record { still_open = refl; same_id = refl; same_queue = refl; same_cache = refl })
  | inr e ↦ subst (Keeps ch) (sym (if_false _ ch e)) (Keeps-refl ch)
]

resend_found-Keeps :
    (id : ℕ) (found : Option (List ℕ)) (ch : Channel) → Keeps ch (resend_found id found ch)
resend_found-Keeps id none ch = Keeps-refl ch
resend_found-Keeps id (some packet) ch = resend_callback-Keeps id (packet_payload packet) ch

pub process_resend_request-Keeps :
    (now id : ℕ) (ch : Channel) → Keeps ch (process_resend_request now id ch)
unfolding process_resend_request
process_resend_request-Keeps now id ch =
    Keeps-trans ch (degrade now id ch) _ (degrade-Keeps now id ch)
      (resend_found-Keeps id (find id ch.sent_data_cache) (degrade now id ch))

resend_once-Keeps :
    (now id : ℕ) (pending : Option ℕ) (found : Option (List ℕ)) (ch : Channel)
    → Keeps ch (resend_once now id pending found ch)
resend_once-Keeps now id (some since) found ch = Keeps-refl ch
resend_once-Keeps now id none none ch = Keeps-refl ch
resend_once-Keeps now id none (some packet) ch =
    let k = resend_callback-Keeps id (packet_payload packet) ch in
    record {
      still_open = k.still_open;
      same_id = k.same_id;
      same_queue = k.same_queue;
      same_cache = k.same_cache;
    }

pub process_missing_id-Keeps : (now id : ℕ) (ch : Channel) → Keeps ch (process_missing_id now id ch)
unfolding process_missing_id
process_missing_id-Keeps now id ch =
    Keeps-trans ch (degrade now id ch) _ (degrade-Keeps now id ch) (
      resend_once-Keeps now id (lookup id ch.pending_resend_ids) (find id ch.sent_data_cache)
        (degrade now id ch))

pub process_missing_ids-Keeps :
    (now : ℕ) (ids : List ℕ) (ch : Channel) → Keeps ch (process_missing_ids now ids ch)
unfolding process_missing_ids
process_missing_ids-Keeps now [] ch = Keeps-refl ch
process_missing_ids-Keeps now (id ∷ ids) ch =
    Keeps-trans ch (process_missing_id now id ch) _ (process_missing_id-Keeps now id ch)
      (process_missing_ids-Keeps now ids (process_missing_id now id ch))

pub process_missing_notify-Keeps :
    (now : ℕ) (ids : List ℕ) (ch : Channel) → Keeps ch (process_missing_notify now ids ch)
unfolding process_missing_notify
process_missing_notify-Keeps now ids ch =
    let k =
      process_missing_ids-Keeps now ids
        (record ch { pending_resend_ids = expire_pending now ids ch.pending_resend_ids }) in
    record {
      still_open = k.still_open;
      same_id = k.same_id;
      same_queue = k.same_queue;
      same_cache = k.same_cache;
    }
