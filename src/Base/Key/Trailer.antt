-- ===== src/Base/Key/Trailer.antt =====
-- The trailer of internal/base/internal.go: packing and unpacking.
use hcdb.Prelude.{ℕ, ◌+◌, ◌*◌, ◌%◌, ◌^◌, ◌≤◌, ◌<◌, ◌≡◌, arith, bit_or_fields, bit_and_mask}
use hcdb.Binary.{Bytes}
use hcdb.Base.Key.{
  seq_num_max, make_trailer, trailer_seq_num, trailer_kind, make_internal_key, seq_num, kind,
}

-- As a sum, for every sequence number that fits 56 bits.
pub make_trailer_sum :
    (seq kind : ℕ) → seq ≤ seq_num_max → kind < 256 → make_trailer seq kind ≡ seq * 256 + kind
unfolding make_trailer
make_trailer_sum seq kind h k = ground (arith, bit_or_fields seq kind 8)

pub trailer_kind_mod : (t : ℕ) → trailer_kind t ≡ t % 256
unfolding trailer_kind
trailer_kind_mod t = bit_and_mask 8 t

-- A key made from a sequence number of at most 56 bits and a kind of one byte gives both back, and its trailer fits 64 bits.
pub make_internal_key_fields :
    (u : Bytes) (seq k : ℕ)
    → seq ≤ seq_num_max
    → k < 256
    → (seq_num (make_internal_key u seq k) ≡ seq)
      × (kind (make_internal_key u seq k) ≡ k)
      × ((make_internal_key u seq k).trailer < 2 ^ 64)
unfolding make_internal_key seq_num kind trailer_seq_num
make_internal_key_fields u seq k h hk =
    ground (arith, make_trailer_sum seq k, trailer_kind_mod (make_trailer seq k))
