-- ===== src/Base/Lists.antt =====
-- Lists measured by native numbers, predicates on lists by recursion, and first and last elements.
use Prim.Native.Nat.{ℕ, suc, ◌+◌}
use mathlib.Core.Path.{◌≡◌, refl, sym}
use mathlib.Core.Logic.{◌≢◌}
use mathlib.Core.List.{List, [], ◌∷◌, ◌++◌, map}
use native.Mathlib.Omega.{arith}

module _ {ℓ} {A : Type ℓ} where
  abbrev pub length : List A → ℕ
  length [] = 0
  length (x ∷ xs) = suc (length xs)

  pub length-append : (xs ys : List A) → length (xs ++ ys) ≡ length xs + length ys
  length-append [] ys = omega arith
  length-append (x ∷ xs) ys = omega (arith, length-append xs ys)

  -- the last element, or `d`
  abbrev pub last_or : A → List A → A
  last_or d [] = d
  last_or d (x ∷ xs) = last_or x xs

  -- the first element, or `d`
  abbrev pub head_or : A → List A → A
  head_or d [] = d
  head_or d (x ∷ xs) = x

abbrev pub All {ℓ κ} : {A : Type ℓ} → (A → Type κ) → List A → Type κ
All P [] = Unit
All P (x ∷ xs) = P x × All P xs

module _ {ℓ κ} {A : Type ℓ} (P : A → Type κ) where
  pub All-append : (xs ys : List A) → All P xs → All P ys → All P (xs ++ ys)
  All-append [] ys hx hy = hy
  All-append (x ∷ xs) ys hx hy = (hx.0, All-append xs ys hx.1 hy)

  pub All-left : (xs ys : List A) → All P (xs ++ ys) → All P xs
  All-left [] ys h = tt
  All-left (x ∷ xs) ys h = (h.0, All-left xs ys h.1)

  pub All-right : (xs ys : List A) → All P (xs ++ ys) → All P ys
  All-right [] ys h = h
  All-right (x ∷ xs) ys h = All-right xs ys h.1

  pub All-last_or : (d : A) (xs : List A) → P d → All P xs → P (last_or d xs)
  All-last_or d [] hd h = hd
  All-last_or d (x ∷ xs) hd h = All-last_or x xs h.0 h.1

  pub All-head_or : (d : A) (xs : List A) → P d → All P xs → P (head_or d xs)
  All-head_or d [] hd h = hd
  All-head_or d (x ∷ xs) hd h = h.0

  pub All-map {μ} : {Q : A → Type μ} (xs : List A) → ((x : A) → P x → Q x) → All P xs → All Q xs
  All-map [] f h = tt
  All-map (x ∷ xs) f h = (f x h.0, All-map xs f h.1)

module _ {ℓ κ μ} {A : Type ℓ} where
  pub All-pair :
      (P : A → Type κ) (Q : A → Type μ) (xs : List A)
      → All P xs
      → All Q xs
      → All (λ x. P x × Q x) xs
  All-pair P Q [] hp hq = tt
  All-pair P Q (x ∷ xs) hp hq = ((hp.0, hq.0), All-pair P Q xs hp.1 hq.1)

module _ {ℓ κ} {A : Type ℓ} where
  -- the relation holds of each element and every later one
  abbrev pub Ordered : (A → A → Type κ) → List A → Type (ℓ ⊔ κ)
  Ordered R [] = Unit
  Ordered R (x ∷ xs) = All (R x) xs × Ordered R xs

  pub Ordered-map :
      (R S : A → A → Type κ)
      → ((x y : A) → R x y → S x y)
      → (xs : List A) → Ordered R xs
      → Ordered S xs
  Ordered-map R S f [] o = tt
  Ordered-map R S f (x ∷ xs) o = (All-map (R x) xs (f x) o.0, Ordered-map R S f xs o.1)

  pub All-insert :
      (P : A → Type κ) (xs ys : List A) (n : A) → All P (xs ++ ys) → P n → All P (xs ++ n ∷ ys)
  All-insert P [] ys n h hn = (hn, h)
  All-insert P (x ∷ xs) ys n h hn = (h.0, All-insert P xs ys n h.1 hn)

  pub All-remove :
      (P : A → Type κ) (xs ys : List A) (n : A) → All P (xs ++ n ∷ ys) → All P (xs ++ ys)
  All-remove P [] ys n h = h.1
  All-remove P (x ∷ xs) ys n h = (h.0, All-remove P xs ys n h.1)

module _ {ℓ κ} {A : Type ℓ} (R : A → A → Type κ) where
  pub Ordered-insert :
      (xs ys : List A) (n : A)
      → Ordered R (xs ++ ys)
      → All (λ x. R x n) xs
      → All (R n) ys
      → Ordered R (xs ++ n ∷ ys)
  Ordered-insert [] ys n o hx hy = (hy, o)
  Ordered-insert (x ∷ xs) ys n o hx hy =
      (All-insert (R x) xs ys n o.0 hx.0, Ordered-insert xs ys n o.1 hx.1 hy)

  pub Ordered-remove : (xs ys : List A) (n : A) → Ordered R (xs ++ n ∷ ys) → Ordered R (xs ++ ys)
  Ordered-remove [] ys n o = o.1
  Ordered-remove (x ∷ xs) ys n o = (All-remove (R x) xs ys n o.0, Ordered-remove xs ys n o.1)

  pub Ordered-right : (xs ys : List A) → Ordered R (xs ++ ys) → Ordered R ys
  Ordered-right [] ys o = o
  Ordered-right (x ∷ xs) ys o = Ordered-right xs ys o.1

  -- an element of the middle is related to both sides
  pub Ordered-middle :
      (xs ys : List A) (n : A) → Ordered R (xs ++ n ∷ ys) → All (λ x. R x n) xs × All (R n) ys
  Ordered-middle [] ys n o = (tt, o.0)
  Ordered-middle (x ∷ xs) ys n o =
      let (before, after) = Ordered-middle xs ys n o.1 in
      (((All-right (R x) xs (n ∷ ys) o.0).0, before), after)

module _ {ℓ} {A : Type ℓ} where
  -- `x` is none of the elements
  abbrev pub NotIn : A → List A → Type ℓ
  NotIn x = All (λ y. x ≢ y)

  abbrev pub Distinct : List A → Type ℓ
  Distinct = Ordered ◌≢◌

  pub last_or-append : (d : A) (xs ys : List A) → last_or d (xs ++ ys) ≡ last_or (last_or d xs) ys
  last_or-append d [] ys = refl
  last_or-append d (x ∷ xs) ys = last_or-append x xs ys

  -- no element of the one list is in the other
  pub NotIn-swap : (xs ys : List A) → All (λ x. NotIn x ys) xs → All (λ y. NotIn y xs) ys
  NotIn-swap xs [] h = tt
  NotIn-swap xs (y ∷ ys) h = (
    All-map (λ x. NotIn x (y ∷ ys)) xs (λ x k e. k.0 (sym e)) h,
    NotIn-swap xs ys (All-map (λ x. NotIn x (y ∷ ys)) xs (λ x k. k.1) h),
  )

module _ {ℓ κ μ} {A : Type ℓ} (P : A → Type μ) (R S : A → A → Type κ) where
  -- the relation changes on elements with `P`
  pub Ordered-map_on :
      ((x y : A) → P x → P y → R x y → S x y)
      → (xs : List A) → All P xs
      → Ordered R xs
      → Ordered S xs
  Ordered-map_on f [] h o = tt
  Ordered-map_on f (x ∷ xs) h o = (
    All-map (λ y. P y × R x y) xs (λ y k. f x y h.0 k.0 k.1) (All-pair P (R x) xs h.1 o.0),
    Ordered-map_on f xs h.1 o.1,
  )

module _ {ℓ κ} {A : Type ℓ} {B : Type κ} where
  pub length-map : (f : A → B) (xs : List A) → length (map f xs) ≡ length xs
  length-map f [] = refl
  length-map f (x ∷ xs) = omega (arith, length-map f xs)
