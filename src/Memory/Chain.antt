-- ===== src/Memory/Chain.antt =====
-- The chain of free blocks through their words.
use pquic.Base.{
  ℕ, zero, suc, ◌+◌, ◌≤◌, ◌<◌, ◌≡◌, refl, ap, ◌∙◌, Bool, false, ◌||◌, some, List, [], ◌∷◌, ◌++◌,
  length, get_elem?, set, arith, ◌==◌,
}

abbrev pub is_in : List ℕ → ℕ → Bool
is_in [] i = false
is_in (f ∷ l) i = f == i || is_in l i

-- From `start` the words lead through the blocks of the list, to `stop`. The blocks lie below `stop`,
-- and none comes twice.
abbrev pub IsChain : List ℕ → ℕ → ℕ → List ℕ → Type 0
IsChain words stop start [] = start ≡ stop
IsChain words stop start (f ∷ l) =
    (start ≡ f)
    × (f < stop)
    × (is_in l f ≡ false)
    × ((word : ℕ) × (get_elem? words f ≡ some word) × IsChain words stop word l)

pub length-set : (l : List ℕ) (i v : ℕ) → length (set l i v) ≡ length l
length-set [] i v = refl
length-set (x ∷ l) zero v = refl
length-set (x ∷ l) (suc i) v = ap suc (length-set l i v)

pub get_elem?-set : (l : List ℕ) (i v : ℕ) → i < length l → get_elem? (set l i v) i ≡ some v
get_elem?-set [] i v h = absurd (omega arith)
get_elem?-set (x ∷ l) zero v h = refl
get_elem?-set (x ∷ l) (suc i) v h = get_elem?-set l i v (omega arith)

get_elem?-set_other :
    (l : List ℕ) (i j v : ℕ) → (i == j) ≡ false → get_elem? (set l i v) j ≡ get_elem? l j
get_elem?-set_other [] i j v h = refl
get_elem?-set_other (x ∷ l) zero zero v h = absurd (ground arith)
get_elem?-set_other (x ∷ l) zero (suc j) v h = refl
get_elem?-set_other (x ∷ l) (suc i) zero v h = refl
get_elem?-set_other (x ∷ l) (suc i) (suc j) v h = get_elem?-set_other l i j v (ground arith)

apart : (f i : ℕ) (b : Bool) → (f == i || b) ≡ false → ((i == f) ≡ false) × (b ≡ false)
apart f i b h = ground arith

-- A word outside the chain may change.
pub IsChain-set :
    (words : List ℕ) (stop start i v : ℕ) (l : List ℕ)
    → is_in l i ≡ false
    → IsChain words stop start l
    → IsChain (set words i v) stop start l
IsChain-set words stop start i v [] h c = c
IsChain-set words stop start i v (f ∷ l) h (s, b, d, (w, e, c)) =
    let (other, rest) = apart f i (is_in l i) h in
    (s, b, d, (w, get_elem?-set_other words i f v other ∙ e, IsChain-set words stop w i v l rest c))

below-is_in :
    (words : List ℕ) (stop start i : ℕ) (l : List ℕ)
    → IsChain words stop start l
    → stop ≤ i
    → is_in l i ≡ false
below-is_in words stop start i [] c h = refl
below-is_in words stop start i (f ∷ l) (s, b, d, (w, e, c)) h =
    ground (arith, below-is_in words stop w i l c h)

pub is_in-append : (l : List ℕ) (u i : ℕ) → is_in (l ++ (u ∷ [])) i ≡ (is_in l i || u == i)
is_in-append [] u i = ground arith
is_in-append (f ∷ l) u i = ground (arith, is_in-append l u i)

-- The next block that was not in use yet joins the end of the chain.
pub IsChain-append :
    (words : List ℕ) (u start : ℕ) (l : List ℕ)
    → u < length words
    → IsChain words u start l
    → IsChain (set words u (u + 1)) (u + 1) start (l ++ (u ∷ []))
IsChain-append words u start [] h c =
    (c, omega arith, refl, (u + 1, get_elem?-set words u (u + 1) h, refl))
IsChain-append words u start (f ∷ l) h (s, b, d, (w, e, c)) = (
  s,
  omega arith,
  (is_in-append l u f ∙ ground arith),
  (w, get_elem?-set_other words u f (u + 1) (ground arith) ∙ e, IsChain-append words u w l h c),
)
