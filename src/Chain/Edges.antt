-- ===== src/Chain/Edges.antt =====
-- The ends of a list, with NULL in place of a sentinel.
use skiplist.Base.{
  ℕ, ◌%◌, ◌<◌, length, ◌∙◌, ◌≡◌, ◌≢◌, List, [], ◌∷◌, ◌++◌, arith, All, All-map, All-last_or,
  last_or, head_or, ==_self, ==_ne, ◌==◌, if◌then◌else◌,
}
use skiplist.Store.{Ptr, null, clean, Callbacks, size_mod, Store}
use skiplist.Chain.{IsInner, IsList}
use skiplist.Chain.Levels.{Links, Links-right, Links-first, at_level_zero, BackLinks}
use skiplist.Chain.Splice.{BackLinks-at}

module _ {E : Type 0} (s : Store E) where
  pub head_or-null :
      (l : List Ptr)
      → All (IsInner s) l
      → (if head_or s.tail l == s.tail then null else head_or s.tail l) ≡ head_or null l
  head_or-null [] inner = rw (==_self s.tail)
  head_or-null (x ∷ l) inner = rw (==_ne inner.0.ne_tail)

  pub last_or-null :
      (l : List Ptr)
      → All (IsInner s) l
      → (if last_or s.head l == s.head then null else last_or s.head l) ≡ last_or null l
  last_or-null [] inner = rw (==_self s.head)
  last_or-null (x ∷ l) inner = rw (
      ==_ne (
        All-last_or (λ p. p ≢ s.head) x l inner.0.ne_head
          (All-map (IsInner s) l (λ q i. i.ne_head) inner.1)))

pub BackLinks-tail :
    (prev : Ptr → Ptr) (tail p : Ptr) (xs : List Ptr)
    → BackLinks prev tail p xs
    → prev tail ≡ last_or p xs
BackLinks-tail prev tail p [] links = links
BackLinks-tail prev tail p (x ∷ xs) links = BackLinks-tail prev tail x xs links.1

small_mod : (n : ℕ) → n < size_mod → n % size_mod ≡ n
small_mod n h = omega arith

pub length-short :
    {E : Type 0} ⦃c : Callbacks E⦄ (s : Store E) (zs : List Ptr)
    → IsList s zs
    → length zs < size_mod
    → s.length ≡ length zs
length-short s zs is short = is.counted ∙ small_mod (length zs) short

module _ {E : Type 0} ⦃c : Callbacks E⦄ (s : Store E) (xs ys : List Ptr)
    (is : IsList s (xs ++ ys)) where
  pub Links-zero : Links s.next s.tail 0 s.head (xs ++ ys)
  Links-zero = rw (at_level_zero s.height (xs ++ ys)) at (is.links 0 (omega arith))

  pub Links-behind : Links s.next s.tail 0 (last_or s.head xs) ys
  Links-behind = Links-right s.next s.tail 0 s.head xs ys Links-zero

  pub next-last : s.next (last_or s.head xs) 0 ≡ clean (head_or s.tail ys)
  next-last = Links-first s.next s.tail 0 (last_or s.head xs) ys Links-behind

  pub prev-head : s.prev (head_or s.tail ys) ≡ last_or s.head xs
  prev-head = BackLinks-at s.prev s.tail s.head xs ys is.back
