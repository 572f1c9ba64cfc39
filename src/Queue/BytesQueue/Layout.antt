-- ===== src/Queue/BytesQueue/Layout.antt =====
-- The layout of a queue from which nothing was popped: its entries, as positions with bytes, and
-- the invariant that the array holds them, apart from each other and from the free blocks.
use ngbigcache.Base.{
  ℕ, ◌+◌, ◌≤◌, ◌<◌, ◌^◌, ◌≡◌, ◌⊎◌, refl, sym, ◌∙◌, ◌++◌, List, [], ◌∷◌, In, arith, length, Bytes,
  slice, le_bytes, length-append, length-le_bytes, slice-slice, take_all, if◌then◌else◌, ◌==◌,
}
use ngbigcache.Gods.{AvlTree}
use ngbigcache.Queue.FreeList.Valid.{IsValid, Free}
use ngbigcache.Queue.BytesQueue.{BytesQueue, left_margin_index, header_entry_size}

-- What an entry takes in the array: its length in four bytes, then its bytes.
abbrev pub entry_bytes : Bytes → Bytes
entry_bytes d = le_bytes 4 (length d) ++ d

pub length-entry_bytes : (d : Bytes) → length (entry_bytes d) ≡ 4 + length d
length-entry_bytes d =
    omega (arith, length-append {0} (le_bytes 4 (length d)) d, length-le_bytes 4 (length d))

abbrev pub Written : Bytes → ℕ → Bytes → Type 0
Written array i d = slice array i (4 + length d) ≡ entry_bytes d

-- No position belongs to two entries.
abbrev pub Clear : ℕ → Bytes → ℕ → Bytes → Type 0
Clear i d j e = (i + (4 + length d) ≤ j) ⊎ (j + (4 + length e) ≤ i)

abbrev pub Entries : Type 0
Entries = List (ℕ × Bytes)

abbrev pub ClearOf : ℕ → Bytes → Entries → Type 0
ClearOf i d [] = Unit
ClearOf i d ((j, e) ∷ es) = Clear i d j e × ClearOf i d es

abbrev pub Spread : Entries → Type 0
Spread [] = Unit
Spread ((i, d) ∷ es) = ClearOf i d es × Spread es

module _ {avl : AvlTree ℕ} where
  -- The entry stands in the used part of the array, with its length in the word before it.
  pub record Holds (q : BytesQueue avl) (i : ℕ) (d : Bytes) : Type 0 where
    pub above : 1 ≤ i
    pub below : i + (4 + length d) ≤ q.tail
    pub short : length d < 2 ^ 32
    pub written : Written q.array i d

  -- Between two calls of a queue from which nothing was popped.
  pub record Lays (q : BytesQueue avl) (es : Entries) : Type 0 where
    pub head : q.head ≡ left_margin_index
    pub margin : q.right_margin ≡ q.tail
    pub started : 1 ≤ q.tail
    pub fits : q.tail ≤ q.capacity
    pub sized : length q.array ≡ q.capacity
    pub header : length q.header_buffer ≡ header_entry_size
    pub counted : q.count ≡ length es
    pub holds : (i : ℕ) (d : Bytes) → In (i, d) es → Holds q i d
    pub spread : Spread es
    pub valid : IsValid q.freelist
    pub free_inside : (p : ℕ) → Free q.freelist p → (1 ≤ p) × (p < q.tail)
    pub free_clear :
        (p : ℕ)
        → Free q.freelist p
        → (i : ℕ) (d : Bytes) → In (i, d) es
        → (p < i) ⊎ (i + (4 + length d) ≤ p)

-- The word and the bytes of an entry that is written.
pub written_word :
    (array : Bytes) (i : ℕ) (d : Bytes)
    → Written array i d
    → slice array i 4 ≡ le_bytes 4 (length d)
written_word array i d w =
    sym (slice-slice array i (4 + length d) 0 4 i (omega arith) (omega arith))
    ∙ rw w (unfold le_bytes in refl)

pub written_data :
    (array : Bytes) (i : ℕ) (d : Bytes) → Written array i d → slice array (i + 4) (length d) ≡ d
written_data array i d w =
    sym (slice-slice array i (4 + length d) 4 (length d) (i + 4) refl (omega arith))
    ∙ rw w (unfold le_bytes in take_all (length d) d (omega arith))

-- The entries without the one at index `i`.
unfoldable pub without : ℕ → Entries → Entries
without i [] = []
without i ((j, d) ∷ es) = if i == j then es else (j, d) ∷ without i es
