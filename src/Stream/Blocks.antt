-- ===== src/Stream/Blocks.antt =====
-- The queue of blocks as a partial function from offsets to bytes, and when it is well formed.
use pquic.Base.{
  ℕ, ◌+◌, ◌-◌, ◌≤◌, ◌<◌, ◌≡◌, refl, Bool, true, false, ◌&&◌, Option, none, List, [], ◌∷◌, length,
  take, drop, get_elem?, length-take, length-drop, get_elem?-take, get_elem?-drop, ◌∙◌, le→ltb,
  arith, ltb, leb, if◌then◌else◌,
}
use pquic.Stream.{StreamData, end_of}

-- Blocks that are not empty, do not overlap, rise along the chain and lie at `lo` or above.
abbrev pub IsBlocks : ℕ → List StreamData → Type 0
IsBlocks lo [] = Unit {0}
IsBlocks lo (d ∷ l) = (lo ≤ d.offset) × (0 < length d.bytes) × IsBlocks (end_of d) l

abbrev pub holds : StreamData → ℕ → Bool
holds d x = leb d.offset x && ltb x (end_of d)

-- The byte of the stream that the queue has at an offset.
unfoldable pub byte_at : List StreamData → ℕ → Option ℕ
byte_at [] x = none
byte_at (d ∷ l) x = if holds d x then get_elem? d.bytes (x - d.offset) else byte_at l x

pub IsBlocks-mono : (lo lo' : ℕ) (l : List StreamData) → lo ≤ lo' → IsBlocks lo' l → IsBlocks lo l
IsBlocks-mono lo lo' [] h b = tt
IsBlocks-mono lo lo' (d ∷ l) h b = (omega arith, b.1, b.2)

pub byte_at_below : (lo x : ℕ) (l : List StreamData) → IsBlocks lo l → x < lo → byte_at l x ≡ none
unfolding byte_at
byte_at_below lo x [] b h = refl
byte_at_below lo x (d ∷ l) b h = ground (arith, byte_at_below (end_of d) x l b.2)

pub byte_at_past :
    (d : StreamData) (l : List StreamData) (x : ℕ) → end_of d ≤ x → byte_at (d ∷ l) x ≡ byte_at l x
unfolding byte_at
byte_at_past d l x h = rw (le→ltb x (end_of d) h) (skip (leb d.offset x))
  where
    skip :
        (b : Bool)
        → (if b && false then get_elem? d.bytes (x - d.offset) else byte_at l x) ≡ byte_at l x
    skip true = refl
    skip false = refl

-- A slice of a frame holds the frame's bytes at their places.
pub length-slice :
    (room start : ℕ) (bytes : List ℕ)
    → room + start ≤ length bytes
    → length (take room (drop start bytes)) ≡ room
length-slice room start bytes h =
    omega (arith, length-take room (drop start bytes), length-drop start bytes)

pub get_elem?-slice :
    (room start i j : ℕ) (bytes : List ℕ)
    → i < room
    → j ≡ start + i
    → get_elem? (take room (drop start bytes)) i ≡ get_elem? bytes j
get_elem?-slice room start i j bytes h e =
    get_elem?-take room i (drop start bytes) h ∙ get_elem?-drop start i j bytes e
