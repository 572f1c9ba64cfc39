-- ===== src/Queue/BytesQueue/Sequence.antt =====
-- Any sequence of `Push` and `Delete`, with the entries that the caller knows of.
use ngbigcache.Base.{
  ℕ, ◌≤◌, ◌<◌, ◌^◌, ◌≡◌, inl, inr, refl, ap, List, [], ◌∷◌, In, length, Bytes, Option, none, some,
  Option-cases, get_elem?, In-get_elem?, Run, ok, ◌>>=◌, Result, value, error,
}
use ngbigcache.Gods.{AvlTree}
use ngbigcache.Queue.BytesQueue.{BytesQueue, QueueError, push, delete, get}
use ngbigcache.Queue.BytesQueue.Layout.{Lays, Entries, without}
use ngbigcache.Queue.BytesQueue.Read.{get-held}
use ngbigcache.Queue.BytesQueue.Delete.{delete-held, freed, In-without}
use ngbigcache.Queue.BytesQueue.Push.{push-cases}

-- A caller stores data, or deletes the entry at a place of its list.
pub data Op : Type 0 where
  store : Bytes → Op
  discard : ℕ → Op

-- Data are not empty and their length fits the word before them.
abbrev pub IsSane : Op → Type 0
IsSane (store d) = (1 ≤ length d) × (length d < 2 ^ 32)
IsSane (discard n) = Unit

abbrev pub AllSane : List Op → Type 0
AllSane [] = Unit
AllSane (op ∷ ops) = IsSane op × AllSane ops

module _ {avl : AvlTree ℕ} where
  -- The caller keeps the index of what was stored, and nothing where `Push` failed.
  abbrev noted : Entries → Bytes → BytesQueue avl × Result QueueError ℕ → BytesQueue avl × Entries
  noted es d (q, value index) = (q, (index, d) ∷ es)
  noted es d (q, error e) = (q, es)

  abbrev discard_at : BytesQueue avl → Entries → Option (ℕ × Bytes) → Run (BytesQueue avl × Entries)
  discard_at q es none = ok (q, es)
  discard_at q es (some (i, d)) = do (q', e) ← delete q i; ok (q', without i es)

  unfoldable pub step : BytesQueue avl × Entries → Op → Run (BytesQueue avl × Entries)
  step (q, es) (store d) = do r ← push q d; ok (noted es d r)
  step (q, es) (discard n) = discard_at q es (get_elem? es n)

  unfoldable pub run : BytesQueue avl × Entries → List Op → Run (BytesQueue avl × Entries)
  unfolding step
  run s [] = ok s
  run s (op ∷ ops) = do s' ← step s op; run s' ops

  -- The layout, with entries that are not empty.
  abbrev Sound : BytesQueue avl × Entries → Type 0
  Sound (q, es) = Lays q es × ((i : ℕ) (d : Bytes) → In (i, d) es → 1 ≤ length d)

  abbrev Ends : Run (BytesQueue avl × Entries) → Type 0
  Ends r = (s : BytesQueue avl × Entries) × (r ≡ ok s) × Sound s

  step-Sound : (s : BytesQueue avl × Entries) (op : Op) → Sound s → IsSane op → Ends (step s op)
  unfolding step
  step-Sound (q, es) (store d) (lays, full) (pos, short) = elim (push-cases q es lays d short) [
    | inl (index, q', e, laid, _, _) ↦ ((q', (index, d) ∷ es), rw e refl, (laid, cons_full index))
    | inr (refused, _) ↦ ((q, es), rw (refused.0) refl, (lays, full))
  ]
    where
      cons_full : (index i : ℕ) (b : Bytes) → In (i, b) ((index, d) ∷ es) → 1 ≤ length b
      cons_full index i b (inl p) = let e : b ≡ d = ap (λ (x : ℕ × Bytes). x.1) p in rw e pos
      cons_full index i b (inr h) = full i b h
  step-Sound (q, es) (discard n) (lays, full) sane = elim (Option-cases (get_elem? es n)) [
    | inl e ↦ rw e ((q, es), refl, (lays, full))
    | inr ((i, d), e) ↦
        let h = In-get_elem? (i, d) es n e in
        let del = delete-held q es i d lays h (full i d h) in
        rw e (
          (freed q es i d lays h (full i d h), without i es),
          rw (del.0) refl,
          (del.1, λ j b m. full j b (In-without i j d b es lays.spread h m).0),
        )
  ]

  pub run-Sound :
      (s : BytesQueue avl × Entries) (ops : List Op) → Sound s → AllSane ops → Ends (run s ops)
  unfolding run
  run-Sound s [] sound sane = (s, refl, sound)
  run-Sound s (op ∷ ops) sound (h, hs) =
      let (s', e, sound') = step-Sound s op sound h in rw e (run-Sound s' ops sound' hs)

  -- From a queue that holds nothing, any sequence of `Push` of data of at least one byte, whose
  -- length fits 32 bits, and of `Delete` of stored entries runs without a panic, and in the end
  -- `Get` returns the data of every entry that was stored and not deleted.
  pub run_get :
      (q : BytesQueue avl) (ops : List Op)
      → Lays q []
      → AllSane ops
      → (q' : BytesQueue avl) × (es : Entries) × (run (q, []) ops ≡ ok (q', es))
        × ((i : ℕ) (d : Bytes) → In (i, d) es → get q' i ≡ ok (value d))
  run_get q ops lays sane =
      let ((q', es), e, (laid, full)) = run-Sound (q, []) ops (lays, λ i d h. elim h [ ]) sane in
      (q', es, e, λ i d h. get-held q' es i d laid h (full i d h))
