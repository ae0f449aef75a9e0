-- ===== src/Shard/Spec.antt =====
-- What a shard promises: entries in the order of their last use, with no addresses, no index and no
-- table of deadlines.
use tinycache.Prelude.{
  ℕ, zero, suc, ◌+◌, ◌-◌, ◌/◌, Bool, true, false, Option, none, some, List, [], ◌∷◌, leb,
  if◌then◌else◌, length, ite, ℤ, pos, negsuc,
}
use tinycache.Prelude.Bytes.{Bytes, bytes_discrete, add64}
use tinycache.Prelude.Keyed.{keyed, without}
use tinycache.Shard.Time.{TimePoint, ns_per_second, is_expired}

pub record Entry : Type 0 where
  pub key : Bytes
  pub value : Bytes
  pub expire_at : Option TimePoint

-- The most recently used entry comes first.
pub record View : Type 0 where
  pub entries : List Entry
  pub max_memory_bytes : ℕ
  pub evictions : ℕ
  pub expired : ℕ

abbrev pub entry_for : Bytes → List Entry → Option Entry
entry_for = keyed (λ e. e.key)

abbrev pub drop_key : Bytes → List Entry → List Entry
drop_key = without (λ e. e.key)

unfoldable pub total : List Entry → ℕ
total [] = 0
total (e ∷ es) = length e.key + length e.value + total es

-- The longest front part whose payloads fit into `m` bytes.
unfoldable pub keep : ℕ → List Entry → List Entry
keep m [] = []
keep m (e ∷ es) =
    let bytes = length e.key + length e.value in if leb bytes m then e ∷ keep (m - bytes) es else []

-- A 64-bit counter after `n` increments.
unfoldable pub bump : ℕ → ℕ → ℕ
bump zero c = c
bump (suc n) c = bump n (add64 c 1)

unfoldable pub live : TimePoint → List Entry → List Entry
live now [] = []
live now (e ∷ es) = if is_expired e.expire_at now then live now es else e ∷ live now es

unfoldable pub set_deadline : Bytes → TimePoint → List Entry → List Entry
set_deadline k t [] = []
set_deadline k t (e ∷ es) =
    ite (bytes_discrete e.key k) (record e { expire_at = some t } ∷ set_deadline k t es)
      (e ∷ set_deadline k t es)

abbrev pub empty : ℕ → View
empty m = record { entries = []; max_memory_bytes = m; evictions = 0; expired = 0 }

unfoldable pub fit : View → View
fit v =
    let kept = keep v.max_memory_bytes v.entries in
    record v { entries = kept; evictions = bump (length v.entries - length kept) v.evictions }

unfoldable pub drop_expired : Bytes → View → View
drop_expired k v = record v { entries = drop_key k v.entries; expired = add64 v.expired 1 }

unfoldable pub get : Bytes → TimePoint → View → View × Option Bytes
get k now v = elim (entry_for k v.entries) [
  | none ↦ (v, none)
  | some e ↦
      if is_expired e.expire_at now
      then (drop_expired k v, none)
      else (record v { entries = e ∷ drop_key k v.entries }, some e.value)
]

unfoldable pub set : Bytes → Bytes → Option TimePoint → View → View
set k value t v =
    fit (record v {
      entries = record { key = k; value = value; expire_at = t } ∷ drop_key k v.entries;
    })

unfoldable pub del : Bytes → View → View × Bool
del k v = (
  record v { entries = drop_key k v.entries },
  elim (entry_for k v.entries) [ none ↦ false | some _ ↦ true ],
)

unfoldable pub expire : Bytes → TimePoint → View → View × Bool
expire k t v = (
  record v { entries = set_deadline k t v.entries },
  elim (entry_for k v.entries) [ none ↦ false | some _ ↦ true ],
)

unfoldable pub ttl : Bytes → TimePoint → TimePoint → View → View × ℤ
ttl k now later v = elim (entry_for k v.entries) [
  | none ↦ (v, negsuc 1)
  | some e ↦ if is_expired e.expire_at now then (drop_expired k v, negsuc 1) else elim e.expire_at [
    | none ↦ (v, negsuc 0)
    | some t ↦ (v, pos ((t - later) / ns_per_second))
  ]
]

unfoldable pub remove_expired : TimePoint → View → View
remove_expired now v =
    let kept = live now v.entries in
    record v { entries = kept; expired = bump (length v.entries - length kept) v.expired }
