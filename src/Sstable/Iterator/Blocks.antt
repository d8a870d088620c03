-- ===== src/Sstable/Iterator/Blocks.antt =====
-- The blocks of a table whose entries are in order, under the search of the index
-- (sstable/iterator.go, index.go).
use hcdb.Prelude.{
  ℕ, zero, suc, ◌<◌, ◌≡◌, refl, sym, subst, ap, ◌∙◌, arith, List, [], ◌∷◌, ◌++◌, length, take, drop,
  get_elem?, some, All, All-right, All-append, ok, Ordering, append_assoc,
}
use hcdb.Binary.{Bytes}
use hcdb.Binary.Compare.{bytes_compare}
use hcdb.Base.Key.{InternalKey, decode_internal_key, internal_compare}
use hcdb.Sstable.Block.{BlockEntry}
use hcdb.Sstable.Index.{IndexEntry, first_key_at}
use hcdb.Sstable.Index.Search.{IsAscending}
use hcdb.Sstable.Table.{read_block}
use hcdb.Sstable.Table.Blocks.{Block, blocks_entries, first_key_of}
use hcdb.Sstable.Iterator.Readable.{readable}

abbrev key_of : BlockEntry → InternalKey
key_of e = decode_internal_key e.key

abbrev pub IsLess : InternalKey → InternalKey → Type 0
IsLess a b = internal_compare bytes_compare a b ≡ Ordering.lt

-- Every entry sorts before all later ones.
abbrev pub IsStrict : List BlockEntry → Type 0
IsStrict [] = Unit {0}
IsStrict (x ∷ xs) = All (λ y. IsLess (key_of x) (key_of y)) xs × IsStrict xs

-- The index has an entry for every block, which is read at it and is not empty.
abbrev pub IsBlocks : Bytes → List IndexEntry → List Block → Type 0
IsBlocks file [] [] = Unit {0}
IsBlocks file [] (b ∷ bs) = ⊥
IsBlocks file (idx ∷ index) [] = ⊥
IsBlocks file (idx ∷ index) (b ∷ bs) =
    ((read_block file idx ≡ ok b) × (0 < length b) × (idx.first_key ≡ first_key_of b))
    × IsBlocks file index bs

module _ (file : Bytes) where
  pub readable-IsBlocks :
      (index : List IndexEntry) (bs : List Block)
      → IsBlocks file index bs
      → readable file index ≡ blocks_entries bs
  unfolding readable
  readable-IsBlocks [] [] h = refl
  readable-IsBlocks [] (b ∷ bs) h = elim h [ ]
  readable-IsBlocks (idx ∷ index) [] h = elim h [ ]
  readable-IsBlocks (idx ∷ index) ([] ∷ bs) h = absurd (omega (arith, h.0.1))
  readable-IsBlocks (idx ∷ index) ((e ∷ b) ∷ bs) h =
      rw (readable, h.0.0, readable-IsBlocks index bs h.1) refl

  pub IsBlocks-drop :
      (i : ℕ) (index : List IndexEntry) (bs : List Block)
      → IsBlocks file index bs
      → IsBlocks file (drop i index) (drop i bs)
  IsBlocks-drop zero index bs h = h
  IsBlocks-drop (suc i) [] [] h = tt
  IsBlocks-drop (suc i) [] (b ∷ bs) h = elim h [ ]
  IsBlocks-drop (suc i) (idx ∷ index) [] h = elim h [ ]
  IsBlocks-drop (suc i) (idx ∷ index) (b ∷ bs) h = IsBlocks-drop i index bs h.1

  -- What holds of all entries holds of the first key of every block.
  first_key_in {κ} :
      (P : InternalKey → Type κ) (i : ℕ) (index : List IndexEntry) (bs : List Block)
      → IsBlocks file index bs
      → i < length index
      → All (λ e. P (key_of e)) (blocks_entries bs)
      → P (first_key_at index i)
  unfolding first_key_at
  first_key_in P i [] bs h range on = absurd (omega arith)
  first_key_in P i (idx ∷ index) [] h range on = elim h [ ]
  first_key_in P i (idx ∷ index) ([] ∷ bs) h range on = absurd (omega (arith, h.0.1))
  first_key_in P zero (idx ∷ index) ((e ∷ b) ∷ bs) h range on =
      subst (λ (k : Bytes). P (decode_internal_key k)) (sym h.0.2) on.0
  first_key_in P (suc i) (idx ∷ index) ((e ∷ b) ∷ bs) h range on =
      first_key_in P i index bs h.1 (omega arith)
        (All-right (λ (a : BlockEntry). P (key_of a)) b (blocks_entries bs) on.1)

pub IsStrict-right : (xs ys : List BlockEntry) → IsStrict (xs ++ ys) → IsStrict ys
IsStrict-right [] ys h = h
IsStrict-right (x ∷ xs) ys h = IsStrict-right xs ys h.1

-- Of two parts in order, everything in the first sorts before what all of the second sorts after.
pub IsStrict-apart :
    (xs ys : List BlockEntry)
    → IsStrict (xs ++ ys)
    → All (λ x. All (λ y. IsLess (key_of x) (key_of y)) ys) xs
IsStrict-apart [] ys h = tt
IsStrict-apart (x ∷ xs) ys h = (
  All-right (λ (y : BlockEntry). IsLess (key_of x) (key_of y)) xs ys h.0,
  IsStrict-apart xs ys h.1,
)

pub blocks_entries-split :
    (i : ℕ) (bs : List Block)
    → blocks_entries bs ≡ blocks_entries (take i bs) ++ blocks_entries (drop i bs)
blocks_entries-split zero bs = refl
blocks_entries-split (suc i) [] = refl
blocks_entries-split (suc i) (b ∷ bs) =
    ap (λ es. b ++ es) (blocks_entries-split i bs)
    ∙ sym (append_assoc b (blocks_entries (take i bs)) (blocks_entries (drop i bs)))

pub IsStrict-IsAscending :
    (file : Bytes) (index : List IndexEntry) (bs : List Block)
    → IsBlocks file index bs
    → IsStrict (blocks_entries bs)
    → IsAscending index
unfolding first_key_at
IsStrict-IsAscending file [] bs h strict i j lt range = absurd (omega arith)
IsStrict-IsAscending file (idx ∷ index) [] h strict i j lt range = elim h [ ]
IsStrict-IsAscending file (idx ∷ index) ([] ∷ bs) h strict i j lt range =
    absurd (omega (arith, h.0.1))
IsStrict-IsAscending file (idx ∷ index) ((e ∷ b) ∷ bs) h strict i zero lt range =
    absurd (omega arith)
IsStrict-IsAscending file (idx ∷ index) ((e ∷ b) ∷ bs) h strict zero (suc j) lt range =
    subst (λ (k : Bytes). IsLess (decode_internal_key k) (first_key_at index j)) (sym h.0.2)
      (first_key_in file (IsLess (key_of e)) j index bs h.1 (omega arith) (
        All-right (λ (y : BlockEntry). IsLess (key_of e) (key_of y)) b (blocks_entries bs)
          strict.0))
IsStrict-IsAscending file (idx ∷ index) ((e ∷ b) ∷ bs) h strict (suc i) (suc j) lt range =
    IsStrict-IsAscending file index bs h.1 (IsStrict-right b (blocks_entries bs) strict.1) i j
      (omega arith) (omega arith)

All-of {κ μ} :
    {P : BlockEntry → Type κ} {Q : BlockEntry → Type μ} (f : (e : BlockEntry) → P e → Q e)
    (es : List BlockEntry)
    → All P es
    → All Q es
All-of f [] h = tt
All-of f (e ∷ es) h = (f e h.0, All-of f es h.1)

-- What stands in the blocks before a block sorts before the first key of that block.
pub before_block :
    (file : Bytes) (i : ℕ) (index : List IndexEntry) (bs : List Block)
    → IsBlocks file index bs
    → IsStrict (blocks_entries bs)
    → i < length index
    → All (λ x. IsLess (key_of x) (first_key_at index i)) (blocks_entries (take i bs))
unfolding first_key_at
before_block file zero index bs h strict range = tt
before_block file (suc i) [] bs h strict range = absurd (omega arith)
before_block file (suc i) (idx ∷ index) [] h strict range = elim h [ ]
before_block file (suc i) (idx ∷ index) (b ∷ bs) h strict range =
    All-append (λ (x : BlockEntry). IsLess (key_of x) (first_key_at index i)) b
      (blocks_entries (take i bs))
      (All-of (λ x p. first_key_in file (IsLess (key_of x)) i index bs h.1 (omega arith) p) b
        (IsStrict-apart b (blocks_entries bs) strict))
      (before_block file i index bs h.1 (IsStrict-right b (blocks_entries bs) strict) (omega arith))

-- No block fails to be read.
pub IsBlocks-reads :
    (file : Bytes) (index : List IndexEntry) (bs : List Block) (i : ℕ) (idx : IndexEntry)
    → IsBlocks file index bs
    → get_elem? index i ≡ some idx
    → (b : Block) × (read_block file idx ≡ ok b)
IsBlocks-reads file [] bs i idx h e = absurd (cc)
IsBlocks-reads file (a ∷ index) [] i idx h e = elim h [ ]
IsBlocks-reads file (a ∷ index) (b ∷ bs) zero idx h e =
    let same : a ≡ idx = cc in (b, subst (λ c. read_block file c ≡ ok b) same h.0.0)
IsBlocks-reads file (a ∷ index) (b ∷ bs) (suc i) idx h e = IsBlocks-reads file index bs i idx h.1 e
