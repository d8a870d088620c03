-- ===== src/Base/Key/Order.antt =====
-- The order of internal keys (internal/base/internal.go) under bytes.Compare, which every caller
-- passes: user key ascending, then trailer descending.
use hcdb.Prelude.{ℕ, ◌≤◌, ◌<◌, ◌≡◌, ◌↔◌, ◌⊎◌, arith, Ordering, false}
use hcdb.Binary.{Bytes}
use hcdb.Binary.Compare.{
  bytes_compare, flip, bytes_compare_refl, bytes_compare-eq, bytes_compare-flip,
  bytes_compare-lt_trans,
}
use hcdb.Base.Key.{
  SeqNum, seq_num_max, kind_max, InternalKey, make_internal_key, make_search_key_at,
  internal_compare, visible, trailer_seq_num,
}
use hcdb.Base.Key.Trailer.{make_trailer_sum}

abbrev pub key_compare : InternalKey → InternalKey → Ordering
key_compare = internal_compare bytes_compare

pub key_compare_refl : (a : InternalKey) → key_compare a a ≡ Ordering.eq
unfolding internal_compare
key_compare_refl a = ground (arith, bytes_compare_refl a.user_key)

pub key_compare-eq : (a b : InternalKey) → key_compare a b ≡ Ordering.eq → a ≡ b
unfolding internal_compare
key_compare-eq a b h = ground (arith, bytes_compare-eq a.user_key b.user_key)

pub key_compare-flip : (a b : InternalKey) → key_compare b a ≡ flip (key_compare a b)
unfolding internal_compare
key_compare-flip a b = ground (arith, bytes_compare-flip a.user_key b.user_key)

pub key_compare-lt_trans :
    (a b c : InternalKey)
    → key_compare a b ≡ Ordering.lt
    → key_compare b c ≡ Ordering.lt
    → key_compare a c ≡ Ordering.lt
unfolding internal_compare
key_compare-lt_trans a b c p q = ground (
  arith,
  bytes_compare-eq a.user_key b.user_key,
  bytes_compare-eq b.user_key c.user_key,
  bytes_compare_refl a.user_key,
  bytes_compare-lt_trans a.user_key b.user_key c.user_key,
)

-- The comparison is a strict total order on internal keys: it answers eq exactly on equal keys, exchanging the arguments exchanges lt and gt, and lt is transitive.
pub internal_compare_order :
    (a b c : InternalKey)
    → ((internal_compare bytes_compare a b ≡ Ordering.eq) ↔ (a ≡ b))
      × (internal_compare bytes_compare b a ≡ flip (internal_compare bytes_compare a b))
      × (internal_compare bytes_compare a b ≡ Ordering.lt
          → internal_compare bytes_compare b c ≡ Ordering.lt
          → internal_compare bytes_compare a c ≡ Ordering.lt)
internal_compare_order a b c = (
  (key_compare-eq a b, λ e. rw e (key_compare_refl b)),
  key_compare-flip a b,
  key_compare-lt_trans a b c,
)

-- Two versions of one user key: the first sorts before the second exactly if it has the higher sequence number, or the same one and the higher kind.
pub newest_first :
    (u : Bytes) (s t : SeqNum) (k l : ℕ)
    → s ≤ seq_num_max
    → t ≤ seq_num_max
    → k < 256
    → l < 256
    → (internal_compare bytes_compare (make_internal_key u s k) (make_internal_key u t l)
        ≡ Ordering.lt)
      ↔ ((t < s) ⊎ ((t ≡ s) × (l < k)))
unfolding internal_compare make_internal_key
newest_first u s t k l hs ht hk hl =
    ground (arith, bytes_compare_refl u, make_trailer_sum s k, make_trailer_sum t l)

-- A search key at a snapshot sorts strictly after a version of its user key exactly if that version is not visible at the snapshot, so a seek to it passes over what is too new and nothing else. Versions have a valid kind.
pub search_key_seeks :
    (u : Bytes) (s snapshot : SeqNum) (k : ℕ)
    → s ≤ seq_num_max
    → snapshot ≤ seq_num_max
    → k ≤ kind_max
    → (internal_compare bytes_compare (make_internal_key u s k) (make_search_key_at u snapshot)
        ≡ Ordering.lt)
      ↔ (visible (make_internal_key u s k) snapshot ≡ false)
unfolding internal_compare make_internal_key make_search_key_at visible trailer_seq_num
search_key_seeks u s snapshot k hs hn hk =
    ground (arith, bytes_compare_refl u, make_trailer_sum s k, make_trailer_sum snapshot kind_max)
