-- ===== src/Transport/Run.antt =====
-- The loop over the parameters, where they stand in the order of their types.
use pquic.Base.{
  ℕ, zero, suc, ◌+◌, ◌≤◌, ◌<◌, ◌≡◌, ◌≢◌, refl, sym, ap, ◌∙◌, Bool, true, false, List, [], ◌∷◌, ◌++◌,
  length, drop, ltb, ◌==◌, if◌then◌else◌, arith, All, le→ltb, ne→==_false, lt→ltb, length-append,
  take-append, drop-append, inl, inr, ◌⊎◌, Bool-cases,
}
use pquic.Intformat.{parse_16, format_16}
use pquic.Intformat.FixedWidth.{parse_16-format_16}
use pquic.Transport.{TransportParameters}
use pquic.Transport.Prepare.{parameter, parameter_if}
use pquic.Transport.Receive.{Receiving, received, is_zero, receive_parameter, elem, note_present}
use pquic.Transport.Extensions.{at_bytes, receive_loop}
use pquic.Transport.Steps.{Sets}

-- Types below `bound` have been seen, and there was no error.
pub record IsAt (mode bound index : ℕ) (tp : TransportParameters) (s : Receiving) : Type 0 where
  pub ret : s.ret ≡ received
  pub remote : s.endpoint.remote_tp ≡ tp
  pub version : s.endpoint.version_index ≡ index
  pub below : All (λ t. t < bound) s.present
  pub timed : 3 < bound → elem 3 s.present ≡ true
  pub address : elem 4 s.present ≡ false
  pub secret : mode ≡ 0 → elem 6 s.present ≡ false

All-below : (m n : ℕ) (types : List ℕ) → m ≤ n → All (λ t. t < m) types → All (λ t. t < n) types
All-below m n [] h all = all
All-below m n (t ∷ types) h (first, all) = (omega arith, All-below m n types h all)

elem_fresh :
    (bound type : ℕ) (types : List ℕ)
    → bound ≤ type
    → All (λ t. t < bound) types
    → elem type types ≡ false
elem_fresh bound type [] h all = refl
elem_fresh bound type (t ∷ types) h (first, all) =
    rw (ne→==_false type t (λ e. absurd (omega (arith, e))), elem_fresh bound type types h all) refl

not_elem :
    (t type : ℕ) (types : List ℕ) → type ≢ t → elem t types ≡ false → elem t (type ∷ types) ≡ false
not_elem t type types h e = rw (ne→==_false t type (λ q. h (sym q)), e) refl

timed_after :
    {bound : ℕ} (type : ℕ) (types : List ℕ)
    → (type ≡ 3) ⊎ (3 < bound)
    → (3 < bound → elem 3 types ≡ true)
    → elem 3 (type ∷ types) ≡ true
timed_after type types (inl e) h = rw e refl
timed_after type types (inr l) h = elim (Bool-cases (3 == type)) [
  | inl e ↦ rw e refl
  | inr e ↦ rw (e, h l) refl
]

module _ (mode index : ℕ) where
  raise_bound :
      (m n : ℕ) (tp : TransportParameters) (s : Receiving)
      → m ≤ n
      → (3 < n → 3 < m)
      → IsAt mode m index tp s
      → IsAt mode n index tp s
  raise_bound m n tp s h late at = record {
    ret = at.ret;
    remote = at.remote;
    version = at.version;
    below = All-below m n s.present h at.below;
    timed = λ l. at.timed (late l);
    address = at.address;
    secret = at.secret;
  }

  receive_parameter-IsAt :
      (bound type : ℕ) (value : List ℕ) (tp tp' : TransportParameters) (s : Receiving)
      → bound ≤ type
      → type < 64
      → type ≢ 4
      → (mode ≡ 0 → type ≢ 6)
      → (3 < suc type → (type ≡ 3) ⊎ (3 < bound))
      → Sets mode type value tp tp'
      → IsAt mode bound index tp s
      → IsAt mode
          (suc type)
          index
          tp'
          (receive_parameter true mode type value (note_present type s))
  unfolding note_present
  receive_parameter-IsAt bound type value tp tp' s h small no_address no_secret late sets at =
      let fresh = elem_fresh bound type s.present h at.below in
      let noted = record s { present = type ∷ s.present } in
      let same : note_present type s ≡ noted = rw (lt→ltb type 64 small, fresh) refl in
      let kept = sets.present noted in
      rw same (record {
        ret = sets.ret noted ∙ at.ret;
        remote = sets.remote noted at.remote;
        version = sets.version noted ∙ at.version;
        below = rw kept (omega arith, All-below bound (suc type) s.present (omega arith) at.below);
        timed = λ l. rw kept (timed_after type s.present (late l) at.timed);
        address = rw kept (not_elem 4 type s.present no_address at.address);
        secret = λ m. rw kept (not_elem 6 type s.present (no_secret m) (at.secret m));
      })

-- A type that may come next: not the preferred address, and no reset secret from a client.
pub record Follows (mode bound type : ℕ) : Type 0 where
  pub order : bound ≤ type
  pub small : type < 64
  pub no_address : type ≢ 4
  pub no_secret : mode ≡ 0 → type ≢ 6
  pub late : (type < 3) ⊎ ((type ≡ 3) ⊎ (3 < bound))

late_case :
    (bound type : ℕ)
    → (type < 3) ⊎ ((type ≡ 3) ⊎ (3 < bound))
    → 3 < suc type
    → (type ≡ 3) ⊎ (3 < bound)
late_case bound type (inl h) l = absurd (omega arith)
late_case bound type (inr h) l = h

late_bound :
    (bound type : ℕ)
    → bound ≤ type
    → type ≢ 3
    → (type < 3) ⊎ ((type ≡ 3) ⊎ (3 < bound))
    → 3 < suc type
    → 3 < bound
late_bound bound type h n (inl less) l = absurd (omega arith)
late_bound bound type h n (inr (inl e)) l = absurd (n e)
late_bound bound type h n (inr (inr more)) l = more

-- A parameter in front of other bytes.
pub length-parameter :
    (type : ℕ) (value rest : List ℕ)
    → length (parameter type value ++ rest) ≡ 4 + (length value + length rest)
unfolding format_16
length-parameter type value rest = omega (arith, length-append value rest)

pub length-parameter_if :
    (test : Bool) (type : ℕ) (value rest : List ℕ)
    → length (parameter_if test type value ++ rest)
      ≡ (if test then 4 + length value else 0) + length rest
length-parameter_if true type value rest = omega (arith, length-parameter type value rest)
length-parameter_if false type value rest = omega arith

drop-parameter :
    (type : ℕ) (value rest : List ℕ) → drop 4 (parameter type value ++ rest) ≡ value ++ rest
unfolding format_16
drop-parameter type value rest = refl

parse_16-parameter_type :
    (type : ℕ) (value rest : List ℕ)
    → type < 65536
    → parse_16 (parameter type value ++ rest) 0 ≡ type
unfolding format_16
parse_16-parameter_type type value rest h =
    parse_16-format_16 type (format_16 (length value) ++ (value ++ rest)) h

parse_16-parameter-length :
    (type : ℕ) (value rest : List ℕ)
    → length value < 65536
    → parse_16 (parameter type value ++ rest) 2 ≡ length value
unfolding format_16 parse_16
parse_16-parameter-length type value rest h = parse_16-format_16 (length value) (value ++ rest) h

module _ (malloc_ok : ℕ → Bool) (every_ok : (type : ℕ) → malloc_ok type ≡ true)
    (mode index : ℕ) where
  -- The loop reads all of the bytes and takes the parameters of the peer from `tp` to `tp'`.
  abbrev pub Runs : ℕ → List ℕ → TransportParameters → TransportParameters → Type 0
  Runs bound bytes tp tp' =
      (s : Receiving)
      → IsAt mode bound index tp s
      → (fuel : ℕ) → length bytes < fuel
      → (s' : Receiving) × (receive_loop malloc_ok mode fuel bytes s ≡ at_bytes s' [])
        × IsAt mode 64 index tp' s'

  pub Runs-end :
      (bound : ℕ) (tp : TransportParameters) → bound ≤ 64 → 3 < bound → Runs bound [] tp tp
  unfolding receive_loop
  Runs-end bound tp h timed s at zero l = absurd (omega arith)
  Runs-end bound tp h timed s at (suc fuel) l =
      (s, rw (at.ret) refl, raise_bound mode index bound 64 tp s h (λ _. timed) at)

  pub Runs-raise :
      (m n : ℕ) (bytes : List ℕ) (tp last : TransportParameters)
      → m ≤ n
      → (3 < n → 3 < m)
      → Runs n bytes tp last
      → Runs m bytes tp last
  Runs-raise m n bytes tp last h late more s at fuel l =
      more s (raise_bound mode index m n tp s h late at) fuel l

  receive_loop_step :
      (fuel type : ℕ) (value rest bytes : List ℕ) (s : Receiving)
      → parse_16 bytes 0 ≡ type
      → parse_16 bytes 2 ≡ length value
      → drop 4 bytes ≡ value ++ rest
      → 4 ≤ length bytes
      → s.ret ≡ received
      → (receive_parameter true mode type value (note_present type s)).ret ≡ received
      → receive_loop malloc_ok mode (suc fuel) bytes s
        ≡ receive_loop malloc_ok mode fuel rest
            (receive_parameter true mode type value (note_present type s))
  unfolding receive_loop
  receive_loop_step fuel type value rest bytes s e e' behind long clean done =
      let going : is_zero s.ret ≡ true = ap is_zero clean in
      let still = ap is_zero done in
      let some_left : (length bytes == 0) ≡ false =
        ne→==_false _ _ (λ z. absurd (omega (arith, z))) in
      let four : ltb (length bytes) 4 ≡ false = le→ltb _ _ long in
      let inside : ltb (length (value ++ rest)) (length value) ≡ false =
        le→ltb _ _ (omega (arith, length-append value rest)) in
      rw
        (
          going,
          some_left,
          four,
          behind,
          e,
          e',
          inside,
          every_ok type,
          take-append value rest,
          drop-append value rest,
          still,
        )
        refl

  pub Runs-parameter :
      (bound type : ℕ) (value rest : List ℕ) (tp tp' last : TransportParameters)
      → Follows mode bound type
      → length value < 65536
      → Sets mode type value tp tp'
      → Runs (suc type) rest tp' last
      → Runs bound (parameter type value ++ rest) tp last
  Runs-parameter bound type value rest tp tp' last f short sets more s at zero l =
      absurd (omega arith)
  Runs-parameter bound type value rest tp tp' last f short sets more s at (suc fuel) l =
      let after =
        receive_parameter-IsAt mode index bound type value tp tp' s f.order f.small f.no_address
          f.no_secret (late_case bound type f.late) sets at in
      let bytes = parameter type value ++ rest in
      let long = length-parameter type value rest in
      let step =
        receive_loop_step fuel type value rest bytes s
          (parse_16-parameter_type type value rest (omega (arith, f.small)))
          (parse_16-parameter-length type value rest short) (drop-parameter type value rest)
          (omega (arith, long)) at.ret after.ret in
      let (s', e, end) = more _ after fuel (omega (arith, long)) in (s', step ∙ e, end)

  pub Runs-parameter_if :
      (test : Bool) (bound type : ℕ) (value rest : List ℕ) (tp tp' last : TransportParameters)
      → Follows mode bound type
      → type ≢ 3
      → length value < 65536
      → (test ≡ true → Sets mode type value tp tp')
      → (test ≡ false → tp ≡ tp')
      → Runs (suc type) rest tp' last
      → Runs bound (parameter_if test type value ++ rest) tp last
  Runs-parameter_if true bound type value rest tp tp' last f n short sets same more =
      Runs-parameter bound type value rest tp tp' last f short (sets refl) more
  Runs-parameter_if false bound type value rest tp tp' last f n short sets same more =
      rw (same refl) (
        Runs-raise bound (suc type) rest tp' last (omega (arith, f.order))
          (late_bound bound type f.order n f.late) more)
