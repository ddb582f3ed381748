-- ===== src/Reorder/Missing.antt =====
-- Which ids `sendMissingNotifications` reports.
use tcpudp.Base.{
  ℕ, zero, suc, ◌+◌, ◌-◌, ◌≤◌, ◌<◌, ◌≡◌, ◌∙◌, refl, sym, ap, Bool, true, false, ◌||◌, List, [], ◌∷◌,
  ◌++◌, some, arith, inl, inr, length, length-append, All, All-append, All-map, leb, ltb,
  Bool-cases, contains, contains-append, ◌==◌, ==_refl, ==→eq, if◌then◌else◌,
}
use tcpudp.Base.Assoc.{lookup}
use tcpudp.Reorder.{
  ReceivedItem, ReceivedMap, Reorder, collect_ids, collect_missing, missing_ids,
  send_missing_notifications, insert_ids,
}
use tcpudp.Reorder.Map.{Above}
use tcpudp.Reorder.Turns.{send_missing_notifications-Same}

-- Not yet announced, and between the expected id and `hi`.
abbrev pub IsGap : List ℕ → ℕ → ℕ → ℕ → Type 0
IsGap notified lo hi x = (lo ≤ x) × (x < hi) × (contains x notified ≡ false)

module _ (notified : List ℕ) (lo hi : ℕ) where
  collect_ids-IsGap :
      (rounds id : ℕ) (missing : List ℕ)
      → lo ≤ id
      → id + rounds ≤ hi
      → length missing < 64
      → All (IsGap notified lo hi) missing
      → All (IsGap notified lo hi) (collect_ids notified rounds id missing)
        × (length (collect_ids notified rounds id missing) ≤ 64)
  unfolding collect_ids
  collect_ids-IsGap zero id missing l h n a = (a, omega arith)
  collect_ids-IsGap (suc rounds) id missing l h n a = elim (Bool-cases (contains id notified)) [
    | inl old ↦
        rw (old, collect_ids)
          (collect_ids-IsGap rounds (id + 1) missing (omega arith) (omega arith) n a)
    | inr new ↦
        let more = missing ++ (id ∷ []) in
        let k : length more ≡ length missing + 1 = length-append missing (id ∷ []) in
        let g : All (IsGap notified lo hi) more =
          All-append _ missing _ a ((l, omega arith, new), tt) in
        elim (Bool-cases (leb 64 (length more))) [
          | inl full ↦ rw (new, collect_ids, full) (g, omega arith)
          | inr room ↦
              rw (new, collect_ids, room)
                (collect_ids-IsGap rounds (id + 1) more (omega arith) (omega arith) (ground arith)
                  g)
        ]
  ]

  collect_missing-IsGap :
      (m : ReceivedMap) (missing : List ℕ)
      → All (λ (e : ℕ × ReceivedItem). (lo ≤ e.0) × (e.0 ≤ hi)) m
      → length missing < 64
      → All (IsGap notified lo hi) missing
      → All (IsGap notified lo hi) (collect_missing notified lo m missing)
        × (length (collect_missing notified lo m missing) ≤ 64)
  unfolding collect_missing
  collect_missing-IsGap [] missing k n a = (a, omega arith)
  collect_missing-IsGap ((j, v) ∷ m) missing k n a =
      let more = collect_ids notified (j - lo) lo missing in
      let g = collect_ids-IsGap (j - lo) lo missing (omega arith) (omega arith) n a in
      elim (Bool-cases (leb 64 (length more))) [
        | inl full ↦ rw (full, collect_missing) g
        | inr room ↦
            rw (room, collect_missing) (collect_missing-IsGap m more k.1 (ground arith) g.0)
      ]

contains-eq : (a x : ℕ) (ids : List ℕ) → a ≡ x → contains a ids ≡ true → contains x ids ≡ true
contains-eq a x ids e h = rw e at h

or_false : (a b : Bool) → (a || b) ≡ false → a ≡ false
or_false true b h = h
or_false false b h = refl

-- What is collected already stays, and ids are added one by one.
module _ (notified : List ℕ) where
  collect_ids-keeps :
      (x rounds id : ℕ) (missing : List ℕ)
      → contains x missing ≡ true
      → contains x (collect_ids notified rounds id missing) ≡ true
  unfolding collect_ids
  collect_ids-keeps x zero id missing h = h
  collect_ids-keeps x (suc rounds) id missing h =
      let more = missing ++ (id ∷ []) in
      let g : contains x more ≡ true = ground (arith, contains-append x missing (id ∷ [])) in
      ground (
        arith,
        g,
        collect_ids-keeps x rounds (id + 1) missing h,
        collect_ids-keeps x rounds (id + 1) more g,
      )

  collect_missing-keeps :
      (x lo : ℕ) (m : ReceivedMap) (missing : List ℕ)
      → contains x missing ≡ true
      → contains x (collect_missing notified lo m missing) ≡ true
  unfolding collect_missing
  collect_missing-keeps x lo [] missing h = h
  collect_missing-keeps x lo ((j, v) ∷ m) missing h =
      let more = collect_ids notified (j - lo) lo missing in
      let g = collect_ids-keeps x (j - lo) lo missing h in
      ground (arith, g, collect_missing-keeps x lo m more g)

  length-collect_ids :
      (rounds id : ℕ) (missing : List ℕ)
      → length (collect_ids notified rounds id missing) ≤ length missing + rounds
  unfolding collect_ids
  length-collect_ids zero id missing = omega arith
  length-collect_ids (suc rounds) id missing =
      let more = missing ++ (id ∷ []) in
      ground (
        arith,
        length-append missing (id ∷ []),
        length-collect_ids rounds (id + 1) missing,
        length-collect_ids rounds (id + 1) more,
      )

  -- An id in the range that is not announced yet is reached while there is room.
  collect_ids-reaches :
      (x rounds id : ℕ) (missing : List ℕ)
      → id ≤ x
      → x < id + rounds
      → contains x notified ≡ false
      → length missing + (x - id) < 64
      → contains x (collect_ids notified rounds id missing) ≡ true
  unfolding collect_ids
  collect_ids-reaches x zero id missing lo hi new room = absurd (omega arith)
  collect_ids-reaches x (suc rounds) id missing lo hi new room =
      let more = missing ++ (id ∷ []) in
      let k : length more ≡ length missing + 1 = length-append missing (id ∷ []) in
      elim (Bool-cases (id == x)) [
        | inl same ↦
            let e = ==→eq id x same in
            let g : contains x more ≡ true = ground (arith, contains-append x missing (id ∷ [])) in
            ground (arith, g, e, collect_ids-keeps x rounds (id + 1) more g)
        | inr other ↦ ground (
          arith,
          k,
          collect_ids-reaches x rounds (id + 1) missing,
          collect_ids-reaches x rounds (id + 1) more,
        )
      ]

pub send_missing_notifications-some :
    (now : ℕ) (s : Reorder) (e : ℕ × ReceivedItem) (m : ReceivedMap)
    → s.received ≡ e ∷ m
    → s.gap_timer_active ≡ true
    → s.missing_notify_interval_ms ≤ now - s.gap_first_seen
    → (x : ℕ) → contains x (missing_ids s) ≡ true
    → (send_missing_notifications now s).0 ≡ some (missing_ids s)
unfolding send_missing_notifications
send_missing_notifications-some now s e m r g w x c = ground arith

collect_missing-first :
    (notified : List ℕ) (n a b : ℕ) (x y : ReceivedItem) (m : ReceivedMap)
    → n ≤ a
    → a < b
    → a < n + 32
    → contains a notified ≡ false
    → contains a (collect_missing notified n ((a, x) ∷ (b, y) ∷ m) []) ≡ true
unfolding collect_missing
collect_missing-first notified n a b x y m lo lt near new =
    let first = collect_ids notified (a - n) n [] in
    let k : length first ≤ 0 + (a - n) = length-collect_ids notified (a - n) n [] in
    let second = collect_ids notified (b - n) n first in
    let hit : contains a second ≡ true =
      collect_ids-reaches notified a (b - n) n first lo (omega arith) new (omega arith) in
    ground (arith, k, hit, collect_missing-keeps notified a n m second hit)

missing_ids-IsGap :
    (s : Reorder) (hi : ℕ)
    → All (λ (e : ℕ × ReceivedItem). (s.next_message_id ≤ e.0) × (e.0 ≤ hi)) s.received
    → All (IsGap s.notified_missing_ids s.next_message_id hi) (missing_ids s)
      × (length (missing_ids s) ≤ 64)
missing_ids-IsGap s hi k =
    collect_missing-IsGap s.notified_missing_ids s.next_message_id hi s.received [] k (omega arith)
      tt

-- A packet that has been received is reported as missing: where two packets are waiting and the
-- gap before the first is shorter than 32 ids, the notification names the first, though it is in
-- the map. Conditions: the gap timer has run for the notification interval, the first waiting id
-- has not been announced before, and the map is in ascending order with no id before the expected one.
pub missing_names_received :
    (now : ℕ) (s : Reorder) (a b : ℕ) (x y : ReceivedItem) (m : ReceivedMap)
    → s.received ≡ (a, x) ∷ (b, y) ∷ m
    → Above s.next_message_id s.received
    → s.gap_timer_active ≡ true
    → s.missing_notify_interval_ms ≤ now - s.gap_first_seen
    → contains a s.notified_missing_ids ≡ false
    → a < s.next_message_id + 32
    → (lookup a s.received ≡ some x)
      × (ids : List ℕ) × ((send_missing_notifications now s).0 ≡ some ids)
      × (contains a ids ≡ true)
unfolding lookup
missing_names_received now s a b x y m e above g w new near =
    let n = s.next_message_id in
    let old = s.notified_missing_ids in
    let order : Above n ((a, x) ∷ (b, y) ∷ m) = rw e at above in
    let c : contains a (missing_ids s) ≡ true =
      rw e (collect_missing-first old n a b x y m order.0 order.2.0 near new) in
    (
      ground (arith, e, ==_refl a),
      missing_ids s,
      send_missing_notifications-some now s (a, x) ((b, y) ∷ m) e g w a c,
      c,
    )

contains-insert_ids :
    (x : ℕ) (new ids : List ℕ)
    → contains x (insert_ids new ids) ≡ (contains x new || contains x ids)
unfolding insert_ids
contains-insert_ids x [] ids = refl
contains-insert_ids x (a ∷ new) ids = elim (Bool-cases (contains a ids)) [
  | inl old ↦
      rw (old, insert_ids) (ground (arith, contains-insert_ids x new ids, contains-eq a x ids))
  | inr fresh ↦ rw (fresh, insert_ids) (ground (arith, contains-insert_ids x new (a ∷ ids)))
]

notified-send :
    (now : ℕ) (s : Reorder) (ids : List ℕ)
    → (send_missing_notifications now s).0 ≡ some ids
    → (send_missing_notifications now s).1.notified_missing_ids
      ≡ insert_ids ids
          (if ltb 1000 (length s.notified_missing_ids) then [] else s.notified_missing_ids)
unfolding send_missing_notifications
notified-send now s ids e = ground arith

-- A notification is sent only while the gap timer runs, once it has run for the interval.
send-IsDue :
    (now : ℕ) (s : Reorder) (ids : List ℕ)
    → (send_missing_notifications now s).0 ≡ some ids
    → (s.gap_timer_active ≡ true)
      × (s.missing_notify_interval_ms ≤ now - s.gap_first_seen)
      × (ids ≡ missing_ids s)
      × (1 ≤ length ids)
unfolding send_missing_notifications
send-IsDue now s ids e = ground arith

all_contained : (ids : List ℕ) → All (λ x. contains x ids ≡ true) ids
all_contained [] = tt
all_contained (a ∷ ids) =
    (ground (arith, ==_refl a), All-map (λ x h. ground (arith, h)) ids (all_contained ids))

-- What `sendMissingNotifications` sends: at least one id and at most 64, so that they fit one
-- packet; each lies between the expected id and `hi` and is not in the set of ids remembered as
-- notified, and each is remembered after it. It sends only while the gap timer runs and after it
-- has run for the notification interval. Condition: `hi` bounds the ids in the map from above, and
-- the expected id bounds them from below.
pub missing_sound :
    (now : ℕ) (s : Reorder) (hi : ℕ) (ids : List ℕ)
    → All (λ (e : ℕ × ReceivedItem). (s.next_message_id ≤ e.0) × (e.0 ≤ hi)) s.received
    → (send_missing_notifications now s).0 ≡ some ids
    → All (IsGap s.notified_missing_ids s.next_message_id hi) ids
      × (1 ≤ length ids)
      × (length ids ≤ 64)
      × (s.gap_timer_active ≡ true)
      × (s.missing_notify_interval_ms ≤ now - s.gap_first_seen)
      × All (λ x. contains x (send_missing_notifications now s).1.notified_missing_ids ≡ true) ids
missing_sound now s hi ids k e =
    let due = send-IsDue now s ids e in
    let g = missing_ids-IsGap s hi k in
    let kept = if ltb 1000 (length s.notified_missing_ids) then [] else s.notified_missing_ids in
    let n = notified-send now s ids e in
    (
      rw due.2 g.0,
      due.3,
      rw due.2 g.1,
      due.0,
      due.1,
      rw n (
          All-map (λ x h. contains-insert_ids x ids kept ∙ ap (λ b. b || contains x kept) h) ids
            (all_contained ids)),
    )

-- No id is announced by two notifications in a row: what one call of `sendMissingNotifications`
-- sends, the next call that sends something does not name, at whatever times they are made.
-- Conditions: no packet is received or delivered in between, `hi` bounds the ids in the map from
-- above, and the expected id bounds them from below.
pub notice_once :
    (now later : ℕ) (s : Reorder) (ids ids' : List ℕ) (hi : ℕ)
    → All (λ (e : ℕ × ReceivedItem). (s.next_message_id ≤ e.0) × (e.0 ≤ hi)) s.received
    → (send_missing_notifications now s).0 ≡ some ids
    → (send_missing_notifications later (send_missing_notifications now s).1).0 ≡ some ids'
    → All (λ x. contains x ids ≡ false) ids'
notice_once now later s ids ids' hi k e e' =
    let s' = (send_missing_notifications now s).1 in
    let same = send_missing_notifications-Same now s in
    let kept = if ltb 1000 (length s.notified_missing_ids) then [] else s.notified_missing_ids in
    let n = notified-send now s ids e in
    let g = missing_ids-IsGap s' hi (rw (same.received, same.next) k) in
    rw (send-IsDue later s' ids' e').2 (
      All-map
        (λ x h.
          or_false (contains x ids) (contains x kept)
            (sym (contains-insert_ids x ids kept) ∙ (ap (contains x) (sym n) ∙ h.2)))
        (missing_ids s') g.0)
