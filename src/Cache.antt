-- ===== src/Cache.antt =====
-- internal/service/cache.go: the bounded cache of account metadata. A call of a method holds the
-- lock throughout, so each is one step; `none` is a panic on an index out of range.
mod Keys
pub mod Invariant
pub mod Eviction
pub mod Queue
use ledger_service.Prelude.{
  ℕ, ◌+◌, ◌%◌, Option, none, some, List, [], ◌∷◌, ◌++◌, ◌==◌, ltb, if◌then◌else◌, length, get_elem?,
  set,
}
use ledger_service.Prelude.Int.{ℤ, pos, negsuc}
use ledger_service.Domain.{AccountKind}
use ledger_service.Assoc.{Map, lookup, insert, erase}

pub record AccountMetadata : Type 0 where
  pub kind : AccountKind
  pub corporate_account_id : ℕ

pub record MetadataCache : Type 0 where
  pub entries : Map AccountMetadata
  pub keys : List ℕ
  pub next : ℕ
  pub limit : ℕ

-- `if limit < 0 { limit = 0 }`
abbrev clamp : ℤ → ℕ
clamp (pos n) = n
clamp (negsuc _) = 0

-- `newMetadataCache`; the capacities given to `make` are hints
unfoldable pub new_metadata_cache : ℤ → MetadataCache
new_metadata_cache limit = record { entries = []; keys = []; next = 0; limit = clamp limit }

-- `Load`
unfoldable pub load : MetadataCache → ℕ → Option AccountMetadata
load c id = if c.limit == 0 then none else lookup id c.entries

-- the end of `Store` on a full cache, behind `evicted := c.keys[c.next]`
unfoldable pub replace : MetadataCache → ℕ → AccountMetadata → ℕ → MetadataCache
replace c id metadata evicted = record c {
  entries = insert id metadata (erase evicted c.entries);
  keys = set c.keys c.next id;
  next = (c.next + 1) % c.limit;
}

unfoldable pub evict : MetadataCache → ℕ → AccountMetadata → Option MetadataCache
unfolding replace
evict c id metadata = elim (get_elem? c.keys c.next) [
  | none ↦ none
  | some evicted ↦ some (replace c id metadata evicted)
]

-- `Store`
unfoldable pub store : MetadataCache → ℕ → AccountMetadata → Option MetadataCache
unfolding evict
store c id metadata = if c.limit == 0 then some c else elim (lookup id c.entries) [
  | some _ ↦ some (record c { entries = insert id metadata c.entries })
  | none ↦
      if ltb (length c.entries) c.limit
      then some (record c { entries = insert id metadata c.entries; keys = c.keys ++ id ∷ [] })
      else evict c id metadata
]

-- `Len`
unfoldable pub len : MetadataCache → ℕ
len c = length c.entries
