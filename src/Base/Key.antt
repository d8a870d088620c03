-- ===== src/Base/Key.antt =====
-- internal/base/internal.go and lookup.go: the user key with its trailer, which packs a 56-bit
-- sequence number and the kind of the record.
pub mod Trailer
pub mod Codec
pub mod Order
use hcdb.Prelude.{
  ℕ, zero, suc, ◌+◌, ◌-◌, ◌*◌, ◌/◌, ◌%◌, ◌^◌, ◌≤◌, ◌<◌, ◌≡◌, refl, arith, List, [], ◌∷◌, ◌++◌,
  length, take, drop, replicate, Bool, Option, none, some, bit_and, bit_or, compare, Ordering, leb,
  if◌then◌else◌,
}
use Prim.Native.Nat.{min}
use mathlib.Core.Option.{get_or}
use hcdb.Binary.{Bytes, IsByte}
use hcdb.Binary.Uint.{put_uint, uint}
use hcdb.Binary.Compare.{bytes_compare}

-- A SeqNum and an InternalKeyTrailer are uint64, an InternalKeyKind is uint8.
abbrev pub SeqNum : Type 0
SeqNum = ℕ

abbrev pub seq_num_max : SeqNum
seq_num_max = 2 ^ 56 - 1

abbrev pub kind_delete : ℕ
kind_delete = 0

abbrev pub kind_set : ℕ
kind_set = 1

abbrev pub kind_max : ℕ
kind_max = 1

abbrev pub kind_invalid : ℕ
kind_invalid = 255

abbrev pub internal_trailer_len : ℕ
internal_trailer_len = 8

-- What one level of the tree says of a key.
pub data KeyLookup : Type 0 where
  key_absent key_found key_deleted : KeyLookup

-- (InternalKeyTrailer(seqNum) << 8) | InternalKeyTrailer(kind)
unfoldable pub make_trailer : SeqNum → ℕ → ℕ
make_trailer seq kind = bit_or (seq * 2 ^ 8 % 2 ^ 64) kind

unfoldable pub trailer_seq_num : ℕ → SeqNum
trailer_seq_num t = t / 2 ^ 8

unfoldable pub trailer_kind : ℕ → ℕ
trailer_kind t = bit_and t 0xff

pub record InternalKey : Type 0 where
  pub user_key : Bytes
  pub trailer : ℕ

unfoldable pub make_internal_key : Bytes → SeqNum → ℕ → InternalKey
make_internal_key user_key seq kind = record {
  user_key = user_key;
  trailer = make_trailer seq kind;
}

unfoldable pub make_search_key_at : Bytes → SeqNum → InternalKey
make_search_key_at user_key snapshot = make_internal_key user_key snapshot kind_max

unfoldable pub make_search_key : Bytes → InternalKey
make_search_key user_key = make_search_key_at user_key seq_num_max

-- A slice too short for a trailer decodes to no user key and an invalid kind.
unfoldable pub decode_internal_key : Bytes → InternalKey
decode_internal_key encoded =
    if leb internal_trailer_len (length encoded)
    then (let n = length encoded - internal_trailer_len in
        record { user_key = take n encoded; trailer = uint (drop n encoded) })
    else record { user_key = []; trailer = kind_invalid }

abbrev pub Compare : Type 0
Compare = Bytes → Bytes → Ordering

unfoldable pub internal_compare : Compare → InternalKey → InternalKey → Ordering
internal_compare user_cmp a b = elim (user_cmp a.user_key b.user_key) [
  | Ordering.lt ↦ Ordering.lt
  | Ordering.gt ↦ Ordering.gt
  | Ordering.eq ↦ compare b.trailer a.trailer
]

-- copy(dst, src): as many bytes as fit.
abbrev pub copy : Bytes → Bytes → Bytes
copy [] src = []
copy (d ∷ dst) [] = d ∷ dst
copy (d ∷ dst) (s ∷ src) = s ∷ copy dst src

-- binary.LittleEndian.PutUint64 at the front of a buffer. `none` is the panic on a short one.
unfoldable pub put_uint64 : Bytes → ℕ → Option Bytes
put_uint64 buf v = if leb 8 (length buf) then some (put_uint 8 v ++ drop 8 buf) else none

-- PutUint64(buf[i:], v): the buffer with v written at i, or the panic.
unfoldable pub put_uint64_at : Bytes → ℕ → ℕ → Option Bytes
put_uint64_at buf i v = elim (put_uint64 (drop i buf) v) [
  | none ↦ none
  | some rest ↦ some (take i buf ++ rest)
]

-- The buffer after Encode, or the panic if it is too small. copy returns the length of the shorter.
unfoldable pub encode : InternalKey → Bytes → Option Bytes
encode k buf = put_uint64_at (copy buf k.user_key) (min (length buf) (length k.user_key)) k.trailer

unfoldable pub size : InternalKey → ℕ
size k = length k.user_key + internal_trailer_len

-- buf := make([]byte, k.Size()); k.Encode(buf), the way that every caller encodes. The buffer is
-- never too small: `encode-size` of Key/Codec.
unfoldable pub encode_new : InternalKey → Bytes
unfolding encode put_uint64_at put_uint64
encode_new k = get_or (encode k (replicate (size k) 0)) []

unfoldable pub seq_num : InternalKey → SeqNum
seq_num k = trailer_seq_num k.trailer

unfoldable pub kind : InternalKey → ℕ
kind k = trailer_kind k.trailer

unfoldable pub visible : InternalKey → SeqNum → Bool
unfolding seq_num
visible k snapshot = leb (seq_num k) snapshot

unfoldable pub valid : InternalKey → Bool
valid k = leb (kind k) kind_max
