-- ===== src/Tracker.antt =====
-- src/common/TcpVCWriteThread.h, class MessageTracker: on which connection each message was sent, in
-- one shard for each connection. The mutex of a shard makes each method one step.
use native.Mathlib.Nat.{mod-lt}
use native.Mathlib.Decide.{ℕ_discrete}
use tcpudp.Base.{
  ℕ, zero, suc, ◌%◌, ◌<◌, ◌≡◌, ◌≢◌, ◌∙◌, refl, sym, ap, arith, false, List, [], ◌∷◌, Option, none,
  some, length, length-map, get_elem?, map, modify, length-modify, get_elem?-modify_self,
  get_elem?-modify_ne, replicate, length-replicate, get_elem?-some, ◌==◌, if◌then◌else◌, eq→==,
  ==_refl, if_true, if_false,
}
use tcpudp.Base.Int.{ℤ, negsuc}
use tcpudp.Base.Assoc.{lookup, insert, erase, lookup-insert, lookup-erase}

-- `Shard::messageToConn` of each shard.
abbrev pub MessageTracker : Type 0
MessageTracker = List (List (ℕ × ℤ))

abbrev pub make_tracker : ℕ → MessageTracker
make_tracker num_shards = replicate num_shards []

unfoldable pub record_message : ℕ → ℤ → MessageTracker → MessageTracker
record_message message_id connection_index shards =
    modify (message_id % length shards) (insert message_id connection_index) shards

abbrev index_of : Option ℤ → ℤ
index_of none = negsuc 0
index_of (some i) = i

-- `it != end() ? it->second : -1`
abbrev find_index : ℕ → Option (List (ℕ × ℤ)) → ℤ
find_index id none = negsuc 0
find_index id (some shard) = index_of (lookup id shard)

unfoldable pub get_connection_index : ℕ → MessageTracker → ℤ
get_connection_index message_id shards =
    find_index message_id (get_elem? shards (message_id % length shards))

unfoldable pub remove_message : ℕ → MessageTracker → MessageTracker
remove_message message_id shards = modify (message_id % length shards) (erase message_id) shards

unfoldable pub clear_tracker : MessageTracker → MessageTracker
clear_tracker shards = map (λ _. []) shards

-- The calls of the threads, in the order in which they take the locks.
pub data TrackerCall : Type 0 where
  recorded : ℕ → ℤ → TrackerCall
  removed : ℕ → TrackerCall
  cleared : TrackerCall

unfoldable pub track : TrackerCall → MessageTracker → MessageTracker
track (recorded id i) t = record_message id i t
track (removed id) t = remove_message id t
track cleared t = clear_tracker t

-- What the tracker stands for: a map from all ids to a connection, -1 for those not tracked.
abbrev pub track_one : TrackerCall → (ℕ → ℤ) → ℕ → ℤ
track_one (recorded id i) view j = if id == j then i else view j
track_one (removed id) view j = if id == j then negsuc 0 else view j
track_one cleared view j = negsuc 0

abbrev pub track_view : List TrackerCall → (ℕ → ℤ) → ℕ → ℤ
track_view [] view = view
track_view (c ∷ cs) view = track_view cs (track_one c view)

abbrev pub track_all : List TrackerCall → MessageTracker → MessageTracker
track_all [] t = t
track_all (c ∷ cs) t = track_all cs (track c t)

-- The tracker `t` of `n` shards stands for `view`.
abbrev pub Stands : ℕ → MessageTracker → (ℕ → ℤ) → Type 0
Stands n t view = (length t ≡ n) × ((j : ℕ) → get_connection_index j t ≡ view j)

-- A change of one id in its shard is a change of that id in the view.
get_connection_index-modify :
    (id j : ℕ) (f : List (ℕ × ℤ) → List (ℕ × ℤ)) (new : ℤ) (t : MessageTracker)
    → 0 < length t
    → ((shard : List (ℕ × ℤ)) → index_of (lookup id (f shard)) ≡ new)
    → ((shard : List (ℕ × ℤ)) → id ≢ j → lookup j (f shard) ≡ lookup j shard)
    → get_connection_index j (modify (id % length t) f t)
      ≡ (if id == j then new else get_connection_index j t)
unfolding get_connection_index
get_connection_index-modify id j f new t some_shard own others =
    let n = length t in
    let t' = modify (id % n) f t in
    let (shard, at) = get_elem?-some t (id % n) (mod-lt id some_shard) in
    let changed = get_elem?-modify_self (id % n) f t shard at in
    ap (λ k. find_index j (get_elem? t' (j % k))) (length-modify (id % n) f t)
    ∙ elim (ℕ_discrete id j) [
      | yes same ↦
          ap (find_index j) (ap (λ i. get_elem? t' (i % n)) (sym same) ∙ changed)
          ∙ (ap (λ i. index_of (lookup i (f shard))) (sym same)
              ∙ (own shard ∙ sym (if_true new _ (eq→== id j same))))
      | no other ↦
          let test : (id == j) ≡ false = ground arith in
          elim (ℕ_discrete (id % n) (j % n)) [
            | yes together ↦
                ap (find_index j) (ap (get_elem? t') (sym together) ∙ changed)
                ∙ (ap index_of (others shard other)
                    ∙ (ap (find_index j) (sym (ap (get_elem? t) (sym together) ∙ at))
                        ∙ sym (if_false new _ test)))
            | no apart ↦
                ap (find_index j) (get_elem?-modify_ne (id % n) (j % n) f t apart)
                ∙ sym (if_false new _ test)
          ]
    ]

find_index-clear :
    (i j : ℕ) (t : MessageTracker) → find_index j (get_elem? (clear_tracker t) i) ≡ negsuc 0
unfolding clear_tracker lookup
find_index-clear i j [] = refl
find_index-clear zero j (x ∷ xs) = refl
find_index-clear (suc i) j (x ∷ xs) = find_index-clear i j xs

find_index-make : (i j n : ℕ) → find_index j (get_elem? (make_tracker n) i) ≡ negsuc 0
unfolding lookup
find_index-make i j zero = refl
find_index-make zero j (suc n) = refl
find_index-make (suc i) j (suc n) = find_index-make i j n

track-Stands :
    (n : ℕ) (c : TrackerCall) (t : MessageTracker) (view : ℕ → ℤ)
    → 0 < n
    → Stands n t view
    → Stands n (track c t) (track_one c view)
unfolding track record_message remove_message clear_tracker get_connection_index
track-Stands n (recorded id i) t view some_shard h = (
  length-modify (id % length t) (insert id i) t ∙ h.0,
  λ j.
      get_connection_index-modify id j (insert id i) i t (omega (arith, h.0))
        (λ shard. rw (lookup-insert id id i shard, ==_refl id) refl)
        (λ shard other.
          let test : (id == j) ≡ false = ground arith in rw (lookup-insert id j i shard, test) refl)
      ∙ ap (λ v. if id == j then i else v) (h.1 j),
)
track-Stands n (removed id) t view some_shard h = (
  length-modify (id % length t) (erase id) t ∙ h.0,
  λ j.
      get_connection_index-modify id j (erase id) (negsuc 0) t (omega (arith, h.0))
        (λ shard. rw (lookup-erase id id shard, ==_refl id) refl)
        (λ shard other.
          let test : (id == j) ≡ false = ground arith in rw (lookup-erase id j shard, test) refl)
      ∙ ap (λ v. if id == j then negsuc 0 else v) (h.1 j),
)
track-Stands n cleared t view some_shard h =
    (length-map (λ _. []) t ∙ h.0, λ j. find_index-clear (j % length (clear_tracker t)) j t)

track_all-Stands :
    (n : ℕ) (cs : List TrackerCall) (t : MessageTracker) (view : ℕ → ℤ)
    → 0 < n
    → Stands n t view
    → Stands n (track_all cs t) (track_view cs view)
track_all-Stands n [] t view some_shard h = h
track_all-Stands n (c ∷ cs) t view some_shard h =
    track_all-Stands n cs (track c t) (track_one c view) some_shard
      (track-Stands n c t view some_shard h)

make_tracker-Stands : (n : ℕ) → Stands n (make_tracker n) (λ _. negsuc 0)
unfolding get_connection_index
make_tracker-Stands n =
    (length-replicate n [], λ j. find_index-make (j % length (make_tracker n)) j n)

-- However many shards there are, the tracker is one map from message ids to connections: after any
-- calls on a new tracker, the index of an id is the one recorded last, and -1 if the id was never
-- recorded, or was removed or cleared since. Condition: there is a shard.
pub tracker_is_map :
    (n : ℕ) (cs : List TrackerCall) (id : ℕ)
    → 0 < n
    → get_connection_index id (track_all cs (make_tracker n)) ≡ track_view cs (λ _. negsuc 0) id
tracker_is_map n cs id some_shard =
    (track_all-Stands n cs (make_tracker n) (λ _. negsuc 0) some_shard (make_tracker-Stands n)).1 id
