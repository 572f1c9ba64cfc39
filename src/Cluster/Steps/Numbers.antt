-- ===== src/Cluster/Steps/Numbers.antt =====
-- How often the number of a call of `Get` of cluster/clusteredBigCache.go is among those that wait and
-- those that were answered.
use ngbigcache.Base.{ℕ, suc, ◌+◌, ◌≤◌, ◌≡◌, true, List, [], ◌∷◌, ◌++◌, ◌==◌, if◌then◌else◌, arith}
use ngbigcache.Base.Assoc as assoc
use ngbigcache.Cluster.Handlers.{member, without}

abbrev pub firsts : {M : Type 0} → List (ℕ × M) → List ℕ
firsts [] = []
firsts ((r, m) ∷ rest) = r ∷ firsts rest

abbrev pub count : ℕ → List ℕ → ℕ
count n [] = 0
count n (m ∷ ms) = let rest = count n ms in if n == m then suc rest else rest

-- The numbers of a list are different, and less than a bound.
abbrev pub AreNumbers : ℕ → List ℕ → Type 0
AreNumbers bound ns = (n : ℕ) → (count n ns ≤ 1) × (bound ≤ n → count n ns ≡ 0)

count-append : (n : ℕ) (ns ms : List ℕ) → count n (ns ++ ms) ≡ count n ns + count n ms
count-append n [] ms = ground arith
count-append n (k ∷ ns) ms = ground (arith, count-append n ns ms)

count-without :
    (n k : ℕ) (ns : List ℕ) → count n (without k ns) ≡ (if k == n then 0 else count n ns)
count-without n k [] = ground arith
count-without n k (m ∷ ns) = ground (arith, count-without n k ns)

count-remove :
    {M : Type 0} (n k : ℕ) (t : List (ℕ × M))
    → count n (firsts (assoc.remove t k)) ≤ count n (firsts t)
unfolding assoc.remove
count-remove n k [] = ground arith
count-remove n k ((m, v) ∷ t) = ground (arith, count-remove n k t)

member-count : (n : ℕ) (ns : List ℕ) → member n ns ≡ true → 1 ≤ count n ns
member-count n [] e = ground arith
member-count n (m ∷ ns) e = ground (arith, member-count n ns)

-- A new call.
pub AreNumbers-ask :
    (bound : ℕ) (ns : List ℕ) → AreNumbers bound ns → AreNumbers (bound + 1) (bound ∷ ns)
AreNumbers-ask bound ns h n = ground (arith, h n)

-- A call that comes to its `select`.
pub AreNumbers-select :
    (bound k : ℕ) (ns ms : List ℕ)
    → member k ns ≡ true
    → AreNumbers bound (ns ++ ms)
    → AreNumbers bound (without k ns ++ k ∷ ms)
AreNumbers-select bound k ns ms waits h n = ground (
  arith,
  h n,
  count-append n ns ms,
  count-append n (without k ns) (k ∷ ms),
  count-without n k ns,
  member-count k ns waits,
)

-- A reply to a call that waits.
pub AreNumbers-reply :
    (bound k : ℕ) (cs ns ms : List ℕ)
    → member k ns ≡ true
    → AreNumbers bound (cs ++ (ns ++ ms))
    → AreNumbers bound (cs ++ (without k ns ++ k ∷ ms))
AreNumbers-reply bound k cs ns ms waits h n = ground (
  arith,
  h n,
  count-append n cs (ns ++ ms),
  count-append n cs (without k ns ++ k ∷ ms),
  count-append n ns ms,
  count-append n (without k ns) (k ∷ ms),
  count-without n k ns,
  member-count k ns waits,
)

-- A call whose time is over, and one that takes its reply.
pub AreNumbers-expire :
    (bound k : ℕ) (cs ns ms : List ℕ)
    → AreNumbers bound (cs ++ (ns ++ ms))
    → AreNumbers bound (cs ++ (without k ns ++ ms))
AreNumbers-expire bound k cs ns ms h n = ground (
  arith,
  h n,
  count-append n cs (ns ++ ms),
  count-append n cs (without k ns ++ ms),
  count-append n ns ms,
  count-append n (without k ns) ms,
  count-without n k ns,
)

pub AreNumbers-take :
    {M : Type 0} (bound k : ℕ) (cs ns : List ℕ) (t : List (ℕ × M))
    → AreNumbers bound (cs ++ (ns ++ firsts t))
    → AreNumbers bound (cs ++ (ns ++ firsts (assoc.remove t k)))
AreNumbers-take bound k cs ns t h n = ground (
  arith,
  h n,
  count-append n cs (ns ++ firsts t),
  count-append n cs (ns ++ firsts (assoc.remove t k)),
  count-append n ns (firsts t),
  count-append n ns (firsts (assoc.remove t k)),
  count-remove n k t,
)
