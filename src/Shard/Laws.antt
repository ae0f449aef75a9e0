-- ===== src/Shard/Laws.antt =====
-- What the clients of src/lruShard.cpp rely on across several calls.
use tinycache.Prelude.{
  ℕ, ◌+◌, ◌≤◌, ◌<◌, ◌≡◌, refl, ap, ◌∙◌, Option, none, some, List, [], ◌∷◌, ◌++◌, ◌-◌, Bool-cases,
  leb, arith, length, inl, inr, ok, false,
}
use tinycache.Prelude.Bytes.{Bytes, word}
use tinycache.Prelude.Keyed.{keyed}
use tinycache.FlatMap.{FlatMap}
use tinycache.Shard
use tinycache.Shard.{LruShard, Node, Expiry, entry_at}
use tinycache.Shard.Time.{TimePoint, deadline, is_expired}
use tinycache.Shard.Spec
use tinycache.Shard.Spec.{Entry, entry_for, drop_key, total, keep}
use tinycache.Shard.Valid.{IsValid, view, table_of, found_at}
use tinycache.Shard.Links.{Linked, unset, linked}
use tinycache.Shard.Expiries.{IsOrdered}
use tinycache.Shard.Due.{none_ahead, all_ahead}
use tinycache.Shard.Refines.{lookup_cases}
use tinycache.Shard.Refines.Reads.{get-Implements}
use tinycache.Shard.Refines.Writes.{set-Fits}

-- In the view, a value that fits and has not expired is read back.
get-set_view :
    (k v : Bytes) (t : Option TimePoint) (now : TimePoint) (w : Spec.View)
    → length k + length v ≤ w.max_memory_bytes
    → is_expired t now ≡ false
    → (Spec.get k now (Spec.set k v t w)).1 ≡ some v
unfolding Spec.get Spec.set Spec.fit keep keyed
get-set_view k v t now w fits alive = ground (arith, alive)

-- The entries that do not fit any more are a back part, of which the first alone would be too much.
pub data Overflows (room : ℕ) (kept : List Entry) : List Entry → Type 0 where
  nothing : Overflows room kept []
  next_exceeds :
      {e : Entry} {es : List Entry}
      → room < total kept + (length e.key + length e.value)
      → Overflows room kept (e ∷ es)

Overflows-cons :
    (room : ℕ) (e : Entry) (kept dropped : List Entry)
    → length e.key + length e.value ≤ room
    → Overflows (room - (length e.key + length e.value)) kept dropped
    → Overflows room (e ∷ kept) dropped
unfolding total
Overflows-cons room e kept [] h nothing = nothing
Overflows-cons room e kept (x ∷ xs) h (next_exceeds p) = next_exceeds (omega arith)

keep_cut :
    (m : ℕ) (es : List Entry)
    → (dropped : List Entry) × (es ≡ keep m es ++ dropped)
      × (total (keep m es) ≤ m)
      × Overflows m (keep m es) dropped
unfolding keep total
keep_cut m [] = ([], refl, omega arith, nothing)
keep_cut m (e ∷ es) = elim (Bool-cases (leb (length e.key + length e.value) m)) [
  | inl fits ↦
      let (dropped, cut, bounded, over) = keep_cut (m - (length e.key + length e.value)) es in
      rw fits (
        dropped,
        ap (e ∷◌) cut,
        ground arith,
        Overflows-cons m e (keep (m - (length e.key + length e.value)) es) dropped (ground arith)
            over,
      )
  | inr large ↦ rw large (e ∷ es, refl, omega arith, next_exceeds (ground arith))
]

due_entry :
    (xs : List Expiry) (n : Node) (t : TimePoint)
    → Linked (table_of xs) n
    → n.expire_at ≡ some t
    → (a : ℕ) × (x : Expiry) × (entry_at a xs ≡ some x) × (x.time ≡ t)
due_entry xs n t (unset p q) timed = absurd (ground (arith, q, timed))
due_entry xs n t (linked a x p q r time) timed = (a, x, q, ground (arith, r, time, timed))

first_time :
    (xs : List Expiry) (t : TimePoint)
    → (a : ℕ) × (x : Expiry) × (entry_at a xs ≡ some x) × (x.time ≡ t)
    → IsOrdered xs
    → (u : TimePoint) × ((elim xs as (λ _. Option TimePoint) [ [] ↦ none | y ∷ _ ↦ some y.time ])
        ≡ some u)
      × (u ≤ t)
first_time [] t (a, x, there, same) p =
    absurd (omega (arith, none_ahead [] (x.time) refl a x there))
first_time (y ∷ ys) t (a, x, there, same) p = elim (Bool-cases (leb y.time t)) [
  | inl early ↦ (y.time, refl, ground arith)
  | inr late ↦
      absurd (omega (arith, same, all_ahead (y ∷ ys) y ys t refl p (ground arith) a x there))
]

module _ {M : Type 0} (F : FlatMap M) {s : LruShard M} (valid : IsValid F s) where
  -- On a valid shard, whose limit with the bytes of key and value stays below 2 ^ 64, a value that
  -- `set` writes with a deadline in range, and that fits the limit with its key, is what `get` of
  -- the key returns next, at a time before the deadline.
  pub get-set :
      (k v : Bytes) (expire_seconds : Option ℕ) (now later : TimePoint) {t : Option TimePoint}
      → s.max_memory_bytes + length k + length v < word
      → deadline expire_seconds now ≡ ok t
      → length k + length v ≤ s.max_memory_bytes
      → is_expired t later ≡ false
      → (s' : LruShard M) × (s'' : LruShard M) × (Shard.set F k v expire_seconds now s ≡ ok s')
        × (Shard.get F k later s' ≡ ok (s'', some v))
  get-set k v expire_seconds now later {t} room h fits alive =
      let (s', writes, valid', seen) = set-Fits F valid k v room expire_seconds now h in
      let (s'', reads, _, _) = get-Implements F valid' k later in
      let found =
        ap (λ w. (Spec.get k later w).1) seen ∙ get-set_view k v t later (view s) fits alive in
      (s', s'', writes, reads ∙ ap (λ r. ok (s'', r)) found)

  -- `set` on a valid shard, whose limit with the bytes of key and value stays below 2 ^ 64 and
  -- whose deadline is in range, evicts from the least recently used end no more than it must: what
  -- stays is a front part of the entries with the written one before them, it fits, and with the
  -- next entry it would not.
  pub set-evicts :
      (k v : Bytes) (expire_seconds : Option ℕ) (now : TimePoint) {t : Option TimePoint}
      → s.max_memory_bytes + length k + length v < word
      → deadline expire_seconds now ≡ ok t
      → (s' : LruShard M) × (dropped : List Entry) × (Shard.set F k v expire_seconds now s ≡ ok s')
        × (record { key = k; value = v; expire_at = t } ∷ drop_key k (view s).entries
            ≡ (view s').entries ++ dropped)
        × (total (view s').entries ≤ s.max_memory_bytes)
        × Overflows s.max_memory_bytes (view s').entries dropped
  unfolding Spec.set Spec.fit
  set-evicts k v expire_seconds now {t} room h =
      let (s', writes, valid', seen) = set-Fits F valid k v room expire_seconds now h in
      let kept = ap (λ (w : Spec.View). w.entries) seen in
      let written : Entry = record { key = k; value = v; expire_at = t } in
      let (dropped, cut, bounded, over) =
        keep_cut s.max_memory_bytes (written ∷ drop_key k (view s).entries) in
      (s', dropped, writes, rw kept cut, rw kept bounded, rw kept over)

  -- On a valid shard, `get_next_expire_time` returns a time that is not later than any deadline of
  -- an entry.
  pub get_next_expire_time-first :
      (k : Bytes) (e : Entry) (t : TimePoint)
      → entry_for k (view s).entries ≡ some e
      → e.expire_at ≡ some t
      → (u : TimePoint) × (Shard.get_next_expire_time F s ≡ some u) × (u ≤ t)
  unfolding Shard.get_next_expire_time
  get_next_expire_time-first k e t found timed = elim (lookup_cases F valid k) [
    | inl (miss, gone, absent) ↦ absurd (ground (arith, gone, found))
    | inr (n, there, hit, seen) ↦
        let c = valid.consistent in
        let at_n = found_at F c k there in
        first_time s.expire_map t
          (due_entry s.expire_map n t (c.links.forward n.it n at_n)
            (ground (arith, seen, found, timed)))
          c.ordered
  ]
