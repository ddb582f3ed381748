-- ===== src/Channel/Missing.antt =====
-- `processMissingNotify` on a report that comes again: what it has put on the resend queue is not
-- put there a second time while it is pending.
use mathlib.Core.Bool.{false≢true}
use tcpudp.Base.{
  ℕ, ◌-◌, ◌<◌, ◌≡◌, ◌∙◌, ◌⊎◌, refl, sym, ap, subst, arith, Bool, true, false, ◌||◌, not, List, [],
  ◌∷◌, none, some, Option-cases, Bool-cases, inl, inr, contains, ◌==◌, ==→eq, ==_refl, leb,
  if◌then◌else◌, if_true, if_false, All,
}
use tcpudp.Base.Assoc.{lookup, insert, lookup-insert}
use tcpudp.Cache.{find}
use tcpudp.Channel.{
  Channel, degrade, resend_once, expire_pending, process_missing_id, process_missing_ids,
  process_missing_notify, pending_resend_ttl,
}
use tcpudp.Channel.Keeps.{degrade-resend_queue, degrade-pending, process_missing_id-Keeps}

-- What is pending will not have expired at `later`.
abbrev pub Fresh : ℕ → List (ℕ × ℕ) → Type 0
Fresh later pending = All (λ (entry : ℕ × ℕ). later - entry.1 < pending_resend_ttl) pending

-- An id that is pending, or is not in the cache.
abbrev Settled : ℕ → Channel → Type 0
Settled id ch =
    ((since : ℕ) × (lookup id ch.pending_resend_ids ≡ some since))
    ⊎ (find id ch.sent_data_cache ≡ none)

expire-Fresh :
    (later now : ℕ) (ids : List ℕ) (pending : List (ℕ × ℕ))
    → Fresh later pending
    → Fresh later (expire_pending now ids pending)
unfolding expire_pending
expire-Fresh later now ids [] h = tt
expire-Fresh later now ids ((id, since) ∷ rest) h =
    let ih = expire-Fresh later now ids rest h.1 in
    elim (not (contains id ids) || leb pending_resend_ttl (now - since))
      as (λ b.
        Fresh later
          (if b then expire_pending now ids rest else (id, since) ∷ expire_pending now ids rest)) [
            | true ↦ ih
            | false ↦ (h.0, ih)
          ]

insert-Fresh :
    (later id now : ℕ) (pending : List (ℕ × ℕ))
    → later - now < pending_resend_ttl
    → Fresh later pending
    → Fresh later (insert id now pending)
unfolding insert
insert-Fresh later id now [] lt h = (lt, tt)
insert-Fresh later id now ((k, since) ∷ rest) lt h =
    elim (k == id)
      as (λ b. Fresh later (if b then (id, now) ∷ rest else (k, since) ∷ insert id now rest)) [
        | true ↦ (lt, h.1)
        | false ↦ (h.0, insert-Fresh later id now rest lt h.1)
      ]

-- A pending id that is reported again in time stays.
lookup-expire :
    (later id since : ℕ) (ids : List ℕ) (pending : List (ℕ × ℕ))
    → contains id ids ≡ true
    → Fresh later pending
    → lookup id pending ≡ some since
    → lookup id (expire_pending later ids pending) ≡ some since
unfolding expire_pending lookup
lookup-expire later id since ids [] there h e = e
lookup-expire later id since ids ((k, t) ∷ rest) there h e =
    let ih = lookup-expire later id since ids rest there h.1 in
    elim (Bool-cases (k == id)) [
      | inl same ↦
          let known : contains k ids ≡ true = ap (λ i. contains i ids) (==→eq k id same) ∙ there in
          ground (arith, h.0)
      | inr other ↦ ground (arith, ih)
    ]

unchanged :
    (now id : ℕ) (ch : Channel) → Settled id ch → process_missing_id now id ch ≡ degrade now id ch
unfolding process_missing_id
unchanged now id ch (inl (since, e)) = rw (e, resend_once) refl
unchanged now id ch (inr e) = elim (Option-cases (lookup id ch.pending_resend_ids)) [
  | inl none_ ↦ rw (none_, e) refl
  | inr (since, some_) ↦ rw some_ refl
]

resent :
    (now id : ℕ) (packet : List ℕ) (ch : Channel)
    → lookup id ch.pending_resend_ids ≡ none
    → find id ch.sent_data_cache ≡ some packet
    → (process_missing_id now id ch).pending_resend_ids ≡ insert id now ch.pending_resend_ids
unfolding process_missing_id
resent now id packet ch absent found =
    rw (absent, found) (ap (insert id now) (degrade-pending now id ch))

-- One round settles its id, unsettles no other and lets nothing pending grow old.
round_pending :
    (now id : ℕ) (ch : Channel)
    → let ch' = process_missing_id now id ch in
      Settled id ch'
      × ((ch'.pending_resend_ids ≡ ch.pending_resend_ids)
          ⊎ (ch'.pending_resend_ids ≡ insert id now ch.pending_resend_ids))
round_pending now id ch =
    let ch' = process_missing_id now id ch in
    let keeps = process_missing_id-Keeps now id ch in
    let same_if : Settled id ch → ch'.pending_resend_ids ≡ ch.pending_resend_ids =
      λ s. ap Channel.pending_resend_ids (unchanged now id ch s) ∙ degrade-pending now id ch in
    elim (Option-cases (lookup id ch.pending_resend_ids)) [
      | inr (since, e) ↦
          let same = same_if (inl (since, e)) in (inl (since, ap (lookup id) same ∙ e), inl same)
      | inl absent ↦ elim (Option-cases (find id ch.sent_data_cache)) [
        | inl unknown ↦ (inr (ap (find id) keeps.same_cache ∙ unknown), inl (same_if (inr unknown)))
        | inr (packet, found) ↦
            let put = resent now id packet ch absent found in
            (
              inl (
                now,
                ap (lookup id) put
                    ∙ (lookup-insert id id now ch.pending_resend_ids ∙ if_true _ _ (==_refl id)),
              ),
              inr put,
            )
      ]
    ]

persists : (now id j : ℕ) (ch : Channel) → Settled j ch → Settled j (process_missing_id now id ch)
persists now id j ch (inr e) = inr (ap (find j) (process_missing_id-Keeps now id ch).same_cache ∙ e)
persists now id j ch (inl (since, e)) = elim (round_pending now id ch).1 [
  | inl same ↦ inl (since, ap (lookup j) same ∙ e)
  | inr put ↦
      let at = ap (lookup j) put ∙ lookup-insert id j now ch.pending_resend_ids in
      elim (Bool-cases (id == j)) [
        | inl own ↦ inl (now, at ∙ if_true _ _ own)
        | inr other ↦ inl (since, at ∙ (if_false _ _ other ∙ e))
      ]
]

round-Fresh :
    (later now id : ℕ) (ch : Channel)
    → later - now < pending_resend_ttl
    → Fresh later ch.pending_resend_ids
    → Fresh later (process_missing_id now id ch).pending_resend_ids
round-Fresh later now id ch lt h = elim (round_pending now id ch).1 [
  | inl same ↦ subst (Fresh later) (sym same) h
  | inr put ↦ subst (Fresh later) (sym put) (insert-Fresh later id now ch.pending_resend_ids lt h)
]

process_missing_ids-Fresh :
    (later now : ℕ) (ids : List ℕ) (ch : Channel)
    → later - now < pending_resend_ttl
    → Fresh later ch.pending_resend_ids
    → Fresh later (process_missing_ids now ids ch).pending_resend_ids
unfolding process_missing_ids
process_missing_ids-Fresh later now [] ch lt h = h
process_missing_ids-Fresh later now (id ∷ ids) ch lt h =
    process_missing_ids-Fresh later now ids (process_missing_id now id ch) lt
      (round-Fresh later now id ch lt h)

persists_all :
    (now j : ℕ) (ids : List ℕ) (ch : Channel)
    → Settled j ch
    → Settled j (process_missing_ids now ids ch)
unfolding process_missing_ids
persists_all now j [] ch h = h
persists_all now j (id ∷ ids) ch h =
    persists_all now j ids (process_missing_id now id ch) (persists now id j ch h)

-- After a report every id of it is pending, or was not in the cache.
settles_all :
    (now j : ℕ) (ids : List ℕ) (ch : Channel)
    → contains j ids ≡ true
    → Settled j (process_missing_ids now ids ch)
unfolding process_missing_ids
settles_all now j [] ch h = absurd (false≢true h)
settles_all now j (id ∷ ids) ch h = elim (Bool-cases (id == j)) [
  | inl own ↦ persists_all now j ids (process_missing_id now id ch) (
      subst (λ i. Settled i (process_missing_id now id ch)) (==→eq id j own)
        (round_pending now id ch).0)
  | inr other ↦ settles_all now j ids (process_missing_id now id ch) (rw other at h)
]

silent :
    (now : ℕ) (ids : List ℕ) (ch : Channel)
    → ((j : ℕ) → contains j ids ≡ true → Settled j ch)
    → (process_missing_ids now ids ch).resend_queue ≡ ch.resend_queue
unfolding process_missing_ids
silent now [] ch h = refl
silent now (id ∷ ids) ch h =
    let first : contains id (id ∷ ids) ≡ true = rw (==_refl id) refl in
    silent now ids (process_missing_id now id ch)
      (λ j there. persists now id j ch (h j (rw there (or_true (id == j)))))
    ∙ (ap Channel.resend_queue (unchanged now id ch (h id first)) ∙ degrade-resend_queue now id ch)
  where
    or_true : (b : Bool) → (b || true) ≡ true
    or_true true = refl
    or_true false = refl

-- A report of missing messages that comes again before the first one's resends expire puts nothing
-- on the resend queue. Conditions: at the second report less than the pending time (2 seconds) has
-- gone by since the first one, and since anything was enqueued that was pending before.
pub second_report_silent :
    (now later : ℕ) (ids : List ℕ) (ch : Channel)
    → later - now < pending_resend_ttl
    → Fresh later ch.pending_resend_ids
    → let once = process_missing_notify now ids ch in
      (process_missing_notify later ids once).resend_queue ≡ once.resend_queue
unfolding process_missing_notify
second_report_silent now later ids ch lt h =
    let start : Channel = record ch {
      pending_resend_ids = expire_pending now ids ch.pending_resend_ids;
    } in
    let once = process_missing_ids now ids start in
    let fresh : Fresh later once.pending_resend_ids =
      process_missing_ids-Fresh later now ids start lt
        (expire-Fresh later now ids ch.pending_resend_ids h) in
    silent later ids
      (record once { pending_resend_ids = expire_pending later ids once.pending_resend_ids })
      (λ j there. elim (settles_all now j ids start there) [
        | inl (since, e) ↦
            inl (since, lookup-expire later j since ids once.pending_resend_ids there fresh e)
        | inr e ↦ inr e
      ])
