-- ===== src/Chain/Splice.antt =====
-- A node linked into a chain, and taken out of it.
use skiplist.Base.{
  ℕ, ◌≡◌, ◌≢◌, sym, ◌∙◌, List, [], ◌∷◌, ◌++◌, All, All-map, All-pair, All-left, All-right,
  All-last_or, All-head_or, NotIn, Distinct, last_or, head_or,
}
use skiplist.Store.{Ptr, Link, clean}
use skiplist.Chain.Levels.{Links, Links-frame, BackLinks}

module _ (next next' : Ptr → ℕ → Link) (tail : Ptr) (i : ℕ) (n : Ptr) where
  -- At level `i` the pointers are those of before, but for the one of `p` and that of `n`.
  abbrev pub SameBut : Ptr → Type 0
  SameBut p = (q : Ptr) → q ≢ n → q ≢ p → next' q i ≡ next q i

  -- A chain that goes on from another node.
  Links-relink :
      (p : Ptr) {from : Ptr} (q : Ptr) (ys : List Ptr)
      → NotIn n ys
      → NotIn p ys
      → Links next tail i q ys
      → SameBut p
      → next' from i ≡ clean (head_or tail ys)
      → Links next' tail i from ys
  Links-relink p q [] new apart links same e = e
  Links-relink p q (y ∷ ys) new apart links same e = (
    e,
    Links-frame next tail i next' y ys links.1 (
        All-map (λ q. (n ≢ q) × (p ≢ q)) (y ∷ ys)
          (λ q h. same q (λ d. h.0 (sym d)) (λ d. h.1 (sym d)))
          (All-pair (λ q. n ≢ q) (λ q. p ≢ q) (y ∷ ys) new apart)),
  )

  pub Links-insert :
      (p : Ptr) (xs ys : List Ptr)
      → Distinct (p ∷ xs ++ ys)
      → NotIn n (p ∷ xs ++ ys)
      → Links next tail i p (xs ++ ys)
      → SameBut (last_or p xs)
      → next' (last_or p xs) i ≡ clean n
      → next' n i ≡ clean (head_or tail ys)
      → Links next' tail i p (xs ++ n ∷ ys)
  Links-insert p [] ys apart new links same e f =
      (e, Links-relink p p ys new.1 apart.0 links same f)
  Links-insert p (x ∷ xs) ys apart new links same e f = (
    rw
        (same p (λ d. new.0 (sym d))
          (All-last_or (λ q. p ≢ q) x xs apart.0.0 (All-left (λ q. p ≢ q) xs ys apart.0.1)))
        links.0,
    Links-insert x xs ys apart.1 new.1 links.1 same e f,
  )

  pub Links-remove :
      (p : Ptr) (xs ys : List Ptr)
      → Distinct (p ∷ xs ++ n ∷ ys)
      → Links next tail i p (xs ++ n ∷ ys)
      → SameBut (last_or p xs)
      → next' (last_or p xs) i ≡ clean (head_or tail ys)
      → Links next' tail i p (xs ++ ys)
  Links-remove p [] ys apart links same e = Links-relink p n ys apart.1.0 apart.0.1 links.1 same e
  Links-remove p (x ∷ xs) ys apart links same e = (
    rw
        (same p (All-right (λ q. p ≢ q) (x ∷ xs) (n ∷ ys) apart.0).0
          (All-last_or (λ q. p ≢ q) x xs apart.0.0 (All-left (λ q. p ≢ q) xs (n ∷ ys) apart.0.1)))
        links.0,
    Links-remove x xs ys apart.1 links.1 same e,
  )

module _ (prev prev' : Ptr → Ptr) (tail n : Ptr) where
  pub BackLinks-frame :
      (p : Ptr) (xs : List Ptr)
      → BackLinks prev tail p xs
      → prev' tail ≡ prev tail
      → All (λ q. prev' q ≡ prev q) xs
      → BackLinks prev' tail p xs
  BackLinks-frame p [] links e same = e ∙ links
  BackLinks-frame p (x ∷ xs) links e same =
      (same.0 ∙ links.0, BackLinks-frame x xs links.1 e same.1)

  -- The rest of the list, behind a first node that has a new one before it.
  BackLinks-relink :
      (p r : Ptr) (ys : List Ptr)
      → n ≢ tail
      → NotIn n ys
      → NotIn tail ys
      → Distinct ys
      → BackLinks prev tail p ys
      → ((q : Ptr) → q ≢ n → q ≢ head_or tail ys → prev' q ≡ prev q)
      → prev' (head_or tail ys) ≡ r
      → BackLinks prev' tail r ys
  BackLinks-relink p r [] ne new end apart links same e = e
  BackLinks-relink p r (y ∷ ys) ne new end apart links same e = (
    e,
    BackLinks-frame y ys links.1 (same tail (λ d. ne (sym d)) end.0) (
        All-map (λ q. (n ≢ q) × (y ≢ q)) ys (λ q h. same q (λ d. h.0 (sym d)) (λ d. h.1 (sym d)))
          (All-pair (λ q. n ≢ q) (λ q. y ≢ q) ys new.1 apart.0)),
  )

  pub BackLinks-insert :
      (p : Ptr) (xs ys : List Ptr)
      → n ≢ tail
      → NotIn n (xs ++ ys)
      → NotIn tail (xs ++ ys)
      → Distinct (xs ++ ys)
      → BackLinks prev tail p (xs ++ ys)
      → ((q : Ptr) → q ≢ n → q ≢ head_or tail ys → prev' q ≡ prev q)
      → prev' n ≡ last_or p xs
      → prev' (head_or tail ys) ≡ n
      → BackLinks prev' tail p (xs ++ n ∷ ys)
  BackLinks-insert p [] ys ne new end apart links same e f =
      (e, BackLinks-relink p n ys ne new end apart links same f)
  BackLinks-insert p (x ∷ xs) ys ne new end apart links same e f = (
    same x (λ d. new.0 (sym d))
          (λ d.
            All-head_or (λ q. x ≢ q) tail ys (λ d. end.0 (sym d))
              (All-right (λ q. x ≢ q) xs ys apart.0) d)
        ∙ links.0,
    BackLinks-insert x xs ys ne new.1 end.1 apart.1 links.1 same e f,
  )

  pub BackLinks-remove :
      (p : Ptr) (xs ys : List Ptr)
      → n ≢ tail
      → NotIn tail (xs ++ n ∷ ys)
      → Distinct (xs ++ n ∷ ys)
      → BackLinks prev tail p (xs ++ n ∷ ys)
      → ((q : Ptr) → q ≢ n → q ≢ head_or tail ys → prev' q ≡ prev q)
      → prev' (head_or tail ys) ≡ last_or p xs
      → BackLinks prev' tail p (xs ++ ys)
  BackLinks-remove p [] ys ne end apart links same e =
      BackLinks-relink n p ys ne apart.0 end.1 apart.1 links.1 same e
  BackLinks-remove p (x ∷ xs) ys ne end apart links same e = (
    same x (All-right (λ q. x ≢ q) xs (n ∷ ys) apart.0).0 (
          All-head_or (λ q. x ≢ q) tail ys (λ d. end.0 (sym d))
            (All-right (λ q. x ≢ q) xs (n ∷ ys) apart.0).1)
        ∙ links.0,
    BackLinks-remove x xs ys ne end.1 apart.1 links.1 same e,
  )

-- The backward pointer at a place in the list.
pub BackLinks-at :
    (prev : Ptr → Ptr) (tail p : Ptr) (xs ys : List Ptr)
    → BackLinks prev tail p (xs ++ ys)
    → prev (head_or tail ys) ≡ last_or p xs
BackLinks-at prev tail p [] [] links = links
BackLinks-at prev tail p [] (y ∷ ys) links = links.0
BackLinks-at prev tail p (x ∷ xs) ys links = BackLinks-at prev tail x xs ys links.1
