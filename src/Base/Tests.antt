-- ===== src/Base/Tests.antt =====
-- The theorems on internal keys and the watermark at concrete inputs.
use hcdb.Prelude.{ℕ, ◌+◌, ◌*◌, ◌≤◌, ◌<◌, ◌≡◌, ◌↔◌, ◌⊎◌, refl, arith, List, [], ◌∷◌, Ordering, false}
use hcdb.Binary.{Bytes}
use hcdb.Binary.Compare.{bytes_compare, flip}
use hcdb.Base.Key.{
  InternalKey, make_internal_key, make_search_key_at, visible, internal_compare,
  decode_internal_key, encode_new, seq_num_max, kind_set, kind_delete,
}
use hcdb.Base.Key.Codec.{decode-encode_new}
use hcdb.Base.Key.Order.{internal_compare_order, newest_first, search_key_seeks}
use hcdb.Base.Watermark.{new_watermark, lookup, store, remove, begin, done, floor_loop, floor}
use hcdb.Base.Watermark.Pins.{Event, begun, ended, run, balance, floor_least_pinned}

abbrev harsh : Bytes
harsh = 104 ∷ 97 ∷ 114 ∷ 115 ∷ 104 ∷ []

abbrev sample_key : InternalKey
sample_key = record { user_key = harsh; trailer = 47 * 256 + 1 }

decode-encode_new_example : decode_internal_key (encode_new sample_key) ≡ sample_key
decode-encode_new_example = decode-encode_new sample_key (omega arith)

abbrev older_key : InternalKey
older_key = record { user_key = harsh; trailer = 9 * 256 + 1 }

abbrev next_key : InternalKey
next_key = record { user_key = harsh; trailer = 3 * 256 }

internal_compare_order_example :
    ((internal_compare bytes_compare sample_key older_key ≡ Ordering.eq) ↔ (sample_key ≡ older_key))
    × (internal_compare bytes_compare older_key sample_key
        ≡ flip (internal_compare bytes_compare sample_key older_key))
    × (internal_compare bytes_compare sample_key older_key ≡ Ordering.lt
        → internal_compare bytes_compare older_key next_key ≡ Ordering.lt
        → internal_compare bytes_compare sample_key next_key ≡ Ordering.lt)
internal_compare_order_example = internal_compare_order sample_key older_key next_key

newest_first_example :
    (internal_compare bytes_compare
        (make_internal_key harsh 47 kind_set)
        (make_internal_key harsh 9 kind_delete)
      ≡ Ordering.lt)
    ↔ ((9 < 47) ⊎ ((◌≡◌ {A = ℕ} 9 47) × (kind_delete < kind_set)))
newest_first_example =
    newest_first harsh 47 9 kind_set kind_delete (omega arith) (omega arith) (omega arith)
      (omega arith)

search_key_seeks_example :
    (internal_compare bytes_compare
        (make_internal_key harsh 8 kind_set)
        (make_search_key_at harsh 7)
      ≡ Ordering.lt)
    ↔ (visible (make_internal_key harsh 8 kind_set) 7 ≡ false)
search_key_seeks_example =
    search_key_seeks harsh 8 7 kind_set (omega arith) (omega arith) (omega arith)

abbrev three_pins : List Event
three_pins = begun 3 ∷ begun 7 ∷ begun 7 ∷ ended 3 ∷ ended 7 ∷ []

floor_least_pinned_example :
    ((s : ℕ) → 0 < balance s 0 three_pins → floor (run new_watermark three_pins) ≤ s)
    × ((floor (run new_watermark three_pins) ≡ seq_num_max)
        ⊎ (0 < balance (floor (run new_watermark three_pins)) 0 three_pins))
floor_least_pinned_example = floor_least_pinned three_pins

-- A snapshot begun twice and ended once still pins its number.
floor_of_three_pins : floor (run new_watermark three_pins) ≡ 7
unfolding run floor floor_loop begin done lookup store remove new_watermark
floor_of_three_pins = refl
