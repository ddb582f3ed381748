-- ===== src/Cache.antt =====
-- src/common/TcpVirtualChannel.{h,cpp}, class SentDataCache: what the sender keeps of the packets it has
-- sent, in one shard for each connection, the oldest entry of a full shard giving way.
pub mod Shard
pub mod Retain
use tcpudp.Base.{
  ℕ, zero, suc, ◌%◌, Bool, true, false, List, [], ◌∷◌, ◌++◌, Option, none, some, length, get_elem?,
  map, modify, replicate, ltb, if◌then◌else◌,
}
use tcpudp.Base.Assoc.{lookup, insert, erase}

-- The mutex of a shard makes each method one step.
pub record ConnShard {ℓ} (A : Type ℓ) : Type ℓ where
  pub items : List (ℕ × A)
  pub insertion_order : List ℕ

pub record SentDataCache {ℓ} (A : Type ℓ) : Type ℓ where
  pub shards : List (ConnShard A)
  pub capacity_per_conn : ℕ

module _ {ℓ} {A : Type ℓ} where
  abbrev pub empty_shard : ConnShard A
  empty_shard = record { items = []; insertion_order = [] }

  abbrev pub make_cache : ℕ → ℕ → SentDataCache A
  make_cache num_conns capacity = record {
    shards = replicate num_conns empty_shard;
    capacity_per_conn = capacity;
  }

  -- `oldest = front(); pop_front(); items.erase(oldest)`
  unfoldable pub evict_front : ConnShard A → ConnShard A
  evict_front shard = elim shard.insertion_order [
    | [] ↦ shard
    | oldest ∷ order ↦ record { items = erase oldest shard.items; insertion_order = order }
  ]

  unfoldable pub insert_shard : ℕ → ℕ → A → ConnShard A → ConnShard A
  insert_shard capacity message_id packet shard =
      let kept : ConnShard A = record {
        items = insert message_id packet shard.items;
        insertion_order = shard.insertion_order ++ (message_id ∷ []);
      } in
      if ltb capacity (length kept.insertion_order) then evict_front kept else kept

  unfoldable pub insert_sent : ℕ → A → SentDataCache A → SentDataCache A
  insert_sent message_id packet cache = record cache {
    shards =
        modify (message_id % length cache.shards)
          (insert_shard cache.capacity_per_conn message_id packet) cache.shards;
  }

  -- `nullptr` is `none`.
  unfoldable pub find : ℕ → SentDataCache A → Option A
  find message_id cache = elim (get_elem? cache.shards (message_id % length cache.shards)) [
    | none ↦ none
    | some shard ↦ lookup message_id shard.items
  ]

  unfoldable pub clear : SentDataCache A → SentDataCache A
  clear cache = record cache { shards = map (λ _. empty_shard) cache.shards }
