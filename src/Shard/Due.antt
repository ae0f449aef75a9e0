-- ===== src/Shard/Due.antt =====
-- Which entries have expired, told from the first deadline of the multimap.
use tinycache.Prelude.{
  ℕ, ◌≤◌, ◌<◌, ◌≡◌, refl, some, List, [], ◌∷◌, arith, length, inl, inr, true, false, Bool-cases,
  ◌==◌, cell_at, erase_at, erase_at_absent,
}
use tinycache.FlatMap.{FlatMap}
use tinycache.Shard.{Node, Expiry, LruShard, node_at, entry_at, erase_node}
use tinycache.Shard.Time.{TimePoint, is_expired}
use tinycache.Shard.Spec.{Entry, live}
use tinycache.Shard.Links.{Linked, unset, linked}
use tinycache.Shard.Nodes.{entries, Distinct}
use tinycache.Shard.Expiries.{IsOrdered, NoneBefore-entry_at, length-erase_entry-le}
use tinycache.Shard.Valid.{IsConsistent, table_of, drop_linked}

pub live-erase_node :
    (now : TimePoint) (ns : List Node) {n : Node}
    → Distinct ns
    → node_at n.it ns ≡ some n
    → is_expired n.expire_at now ≡ true
    → live now (entries (erase_node n.it ns)) ≡ live now (entries ns)
unfolding cell_at erase_at live
live-erase_node now [] d h late = cc
live-erase_node now (m ∷ ns) {n} (fresh, new, d) h late = elim (Bool-cases (m.it == n.it)) [
  | inl here ↦ ground (arith, erase_at_absent (λ (x : Node). x.it) n.it ns)
  | inr later ↦ ground (arith, live-erase_node now ns {n = n} d (rw later at h) late)
]

pub length-live-le : (now : TimePoint) (es : List Entry) → length (live now es) ≤ length es
unfolding live
length-live-le now [] = omega arith
length-live-le now (e ∷ es) = ground (arith, length-live-le now es)

live_all :
    (now : TimePoint) (ns : List Node)
    → Distinct ns
    → ((a : ℕ) (n : Node) → node_at a ns ≡ some n → is_expired n.expire_at now ≡ false)
    → live now (entries ns) ≡ entries ns
unfolding cell_at live
live_all now [] d h = refl
live_all now (m ∷ ns) (fresh, new, d) h =
    ground (arith, h m.it m, live_all now ns d (λ a n there. h a n (ground arith)))

-- Once the first deadline lies ahead, no entry has expired.
pub all_live :
    {M : Type 0} (F : FlatMap M) (s : LruShard M) (now : TimePoint)
    → IsConsistent F s
    → ((e : ℕ) (x : Expiry) → entry_at e s.expire_map ≡ some x → now < x.time)
    → live now (entries s.lru_list) ≡ entries s.lru_list
all_live F s now c ahead =
    live_all now s.lru_list c.distinct (λ a n there. alive n (c.links.forward a n there))
  where
    alive : (n : Node) → Linked (table_of s.expire_map) n → is_expired n.expire_at now ≡ false
    alive n (unset p q) = unfold is_expired in ground arith
    alive n (linked e x p q r t) = unfold is_expired in ground (arith, ahead e x q)

pub none_ahead :
    (xs : List Expiry) (now : TimePoint)
    → xs ≡ []
    → (e : ℕ) (y : Expiry) → entry_at e xs ≡ some y
    → now < y.time
unfolding cell_at
none_ahead xs now p e y there = absurd (ground arith)

-- Where the first entry lies ahead of `now`, so do all.
pub all_ahead :
    (l : List Expiry) (x : Expiry) (xs : List Expiry) (now : TimePoint)
    → l ≡ x ∷ xs
    → IsOrdered l
    → now < x.time
    → (e : ℕ) (y : Expiry) → entry_at e l ≡ some y
    → now < y.time
unfolding cell_at
all_ahead l x xs now shape p ahead e y there =
    let sorted : IsOrdered (x ∷ xs) = rw shape at p in
    let found : entry_at e (x ∷ xs) ≡ some y = rw shape at there in
    elim (Bool-cases (x.it == e)) [
      | inl here ↦ ground arith
      | inr later ↦
          omega (arith, NoneBefore-entry_at x.time e xs {x = y} sorted.0 (rw later at found))
    ]

pub first_entry :
    (l : List Expiry) (x : Expiry) (xs : List Expiry) → l ≡ x ∷ xs → entry_at x.it l ≡ some x
unfolding cell_at
first_entry l x xs shape = rw shape (ground arith)

pub length-drop_linked-le :
    (n : Node) (l : List Expiry) (x : Expiry) (xs : List Expiry)
    → l ≡ x ∷ xs
    → n.expire_it ≡ some x.it
    → length (drop_linked n.expire_it l) ≤ length xs
unfolding drop_linked erase_at
length-drop_linked-le n l x xs shape points =
    rw shape (rw points (ground (arith, length-erase_entry-le x.it xs)))
