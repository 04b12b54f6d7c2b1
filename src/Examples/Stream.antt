-- ===== src/Examples/Stream.antt =====
-- A C library whose files are lists of bytes, blocks that write a pair as two bytes, and an empty list.
use skiplist.Base.{ℕ, suc, ◌≡◌, refl, ap, ◌∙◌, arith, true, List, [], ◌∷◌, ◌++◌, length, zero}
use skiplist.Store.{clean, Store}
use skiplist.Life.Levels.{IsList-empty}
use skiplist.Archive.Files.{Libc, Blocks}
use skiplist.Archive.Save.{IsWriter, IsCoded}
use skiplist.Archive.Read.{IsReader}
use skiplist.Session.{IsReady}
use skiplist.Examples.Pairs.{pairs, two_pairs}

abbrev pub first_bytes : ℕ → List ℕ → List ℕ
first_bytes zero w = []
first_bytes (suc n) [] = []
first_bytes (suc n) (b ∷ w) = b ∷ first_bytes n w

abbrev pub later_bytes : ℕ → List ℕ → List ℕ
later_bytes zero w = w
later_bytes (suc n) [] = []
later_bytes (suc n) (b ∷ w) = later_bytes n w

abbrev pub stream : Libc (List ℕ)
stream = record {
  fwrite = λ bytes w. (length bytes, w ++ bytes);
  fread = λ n w. (first_bytes n w, later_bytes n w);
  malloc = λ n w. (true, w);
}

pub stream-IsWriter : IsWriter stream (λ w. w)
stream-IsWriter = record {
  whole = λ bytes w. refl;
  behind = λ bytes w. refl;
  given = λ n w. refl;
  same = λ n w. refl;
}

first-append : (xs ys : List ℕ) → first_bytes (length xs) (xs ++ ys) ≡ xs
first-append [] ys = refl
first-append (x ∷ xs) ys = ap (λ l. x ∷ l) (first-append xs ys)

later-append : (xs ys : List ℕ) → later_bytes (length xs) (xs ++ ys) ≡ ys
later-append [] ys = refl
later-append (x ∷ xs) ys = later-append xs ys

pub stream-IsReader : IsReader stream (λ w. w)
stream-IsReader = record {
  front = λ xs ys w e. (
    ap (first_bytes (length xs)) e ∙ first-append xs ys,
    ap (later_bytes (length xs)) e ∙ later-append xs ys,
  );
  given = λ n w. refl;
  same = λ n w. refl;
}

-- the record of a pair
abbrev pub two_bytes : ℕ × ℕ → List ℕ
two_bytes e = e.0 ∷ e.1 ∷ []

-- EINVAL is 22.
abbrev read_pair : List ℕ → ℕ × ℕ → ℕ × (ℕ × ℕ)
read_pair (k ∷ v ∷ []) e = (0, (k, v))
read_pair _ e = (22, e)

abbrev pub pair_blocks : Blocks (ℕ × ℕ)
pair_blocks = record {
  sizeof_entry = λ e. 2;
  write_entry = λ e size. two_bytes e;
  read_entry = read_pair;
}

pub two_bytes-IsCoded : (e : ℕ × ℕ) → IsCoded pair_blocks two_bytes e
two_bytes-IsCoded e = record {
  bounded = omega arith;
  fits = omega arith;
  written = λ size h. refl;
  reads = refl;
}

-- The head is node 1 and the tail node 2; there is memory for two nodes.
abbrev pub no_pairs : Store (ℕ × ℕ)
no_pairs = record two_pairs {
  height = λ p. 1;
  prev = λ p. 1;
  next = λ p i. clean 2;
  length = 0;
  supply = 3 ∷ 4 ∷ [];
}

pub no_pairs-IsReady : IsReady no_pairs []
no_pairs-IsReady = record {
  list =
      IsList-empty no_pairs refl refl (omega arith) (omega arith) (omega arith) refl (λ i low. refl)
        refl refl;
  seed = (omega arith, omega arith);
  none_kept = refl;
  apart = (
    (omega arith, omega arith, omega arith, tt),
    ((omega arith, omega arith, omega arith, tt), tt),
  );
  distinct = ((omega arith, tt), (tt, tt));
}
