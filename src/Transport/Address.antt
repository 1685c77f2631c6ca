-- ===== src/Transport/Address.antt =====
-- picoquic/transport.c: the preferred address, written and read back.
use pquic.Base.{
  ℕ, suc, ◌+◌, ◌-◌, ◌^◌, ◌≤◌, ◌<◌, ◌≡◌, ◌⊎◌, refl, sym, ap, ◌∙◌, true, false, List, [], ◌∷◌, ◌++◌,
  length, take, drop, ltb, leb, ◌==◌, arith, inl, inr, u8, ==_iff, le→ltb, le→leb, length-append,
  length-take, take-append, drop-append, ◌&&◌, ◌||◌, Bool-cases,
}
use pquic.Intformat.{format_16, parse_16, byte}
use pquic.Intformat.FixedWidth.{parse_16-format_16}
use pquic.ConnectionId.{format_connection_id, parse_connection_id}
use pquic.Transport.{
  PreferredAddress, ip_length_of, prepare_preferred_address, decode_address_rest,
  decode_preferred_address,
}

-- The fields fit their arrays and bytes.
pub record IsAddress (a : PreferredAddress) : Type 0 where
  pub ip_version : (a.ip_version ≡ 4) ⊎ (a.ip_version ≡ 6)
  pub ip_address : length a.ip_address ≡ 16
  pub port : a.port < 2 ^ 16
  pub connection_id : length a.connection_id ≤ 18
  pub reset_token : length a.reset_token ≡ 16

take_all : (bytes : List ℕ) → take (length bytes) bytes ≡ bytes
take_all [] = refl
take_all (b ∷ bytes) = ap (◌∷◌ b) (take_all bytes)

empty_id : (id : List ℕ) → length id ≡ 0 → [] ≡ id
empty_id [] h = refl
empty_id (b ∷ id) h = absurd (omega (arith, h))

format_connection_id-fits :
    (left : ℕ) (id : List ℕ) → length id ≤ left → format_connection_id left id ≡ id
unfolding format_connection_id
format_connection_id-fits left id h = elim (Bool-cases (length id == 0)) [
  | inl none_there ↦
      rw (le→ltb left (length id) h, none_there) (empty_id id ((==_iff _ _).0 none_there))
  | inr some_there ↦ rw (le→ltb left (length id) h, some_there) refl
]

-- Behind the address.
decode_address_rest-written :
    (a old : PreferredAddress) (bytes_max index : ℕ)
    → IsAddress a
    → index + 3 + length a.connection_id + 16 ≤ bytes_max
    → decode_address_rest bytes_max index
        (format_16 a.port ++ (u8 (length a.connection_id) ∷ (a.connection_id ++ a.reset_token)))
        old
      ≡ (
        record old { port = a.port; connection_id = a.connection_id; reset_token = a.reset_token },
        index + 3 + length a.connection_id + 16,
      )
unfolding decode_address_rest format_16 parse_connection_id parse_16
decode_address_rest-written a old bytes_max index ok fits =
    let id = a.connection_id in
    let token = a.reset_token in
    let port = parse_16-format_16 a.port (u8 (length id) ∷ (id ++ token)) ok.port in
    let small : u8 (length id) ≡ length id = omega (arith, ok.connection_id) in
    let short : leb (length id) 18 ≡ true = le→leb _ _ ok.connection_id in
    let inside : leb (index + 3 + length id + 16) bytes_max ≡ true = le→leb _ _ fits in
    let same : (length id == length id) ≡ true = (==_iff _ _).1 refl in
    let whole : take 16 token ≡ token =
      ap (λ (n : ℕ). take n token) (sym ok.reset_token) ∙ take_all token in
    simp (small, port, short, inside, same, take-append id token, drop-append id token, whole) refl

-- The bytes of an address of that length.
coded : ℕ → PreferredAddress → List ℕ
coded ip_length a =
    u8 a.ip_version
    ∷ ip_length
    ∷ (take ip_length a.ip_address
        ++ (format_16 a.port ++ (u8 (length a.connection_id) ∷ (a.connection_id ++ a.reset_token))))

module _ (ip_length ip_version : ℕ)
    (kind : ((ip_length ≡ 4) × (ip_version ≡ 4)) ⊎ ((ip_length ≡ 16) × (ip_version ≡ 6))) where
  kind_length : ip_length ≤ 16
  kind_length = ground arith

  kind_version : u8 ip_version ≡ ip_version
  kind_version = ground arith

  kind_test : ((ip_length == 4 && ip_version == 4) || (ip_length == 16 && ip_version == 6)) ≡ true
  kind_test = ground arith

module _ (a : PreferredAddress) (ok : IsAddress a) where
  length-ip : (ip_length : ℕ) → ip_length ≤ 16 → length (take ip_length a.ip_address) ≡ ip_length
  length-ip ip_length h = omega (arith, length-take ip_length a.ip_address, ok.ip_address)

  length-coded :
      (ip_length : ℕ)
      → ip_length ≤ 16
      → length (coded ip_length a) ≡ 1 + 1 + ip_length + 2 + 1 + length a.connection_id + 16
  unfolding coded format_16
  length-coded ip_length h =
      let ip = take ip_length a.ip_address in
      let id = a.connection_id in
      omega (
        arith,
        length-ip ip_length h,
        length-append ip (format_16 a.port ++ (u8 (length id) ∷ (id ++ a.reset_token))),
        length-append id a.reset_token,
        ok.reset_token,
      )

  prepare_preferred_address-coded :
      (bytes_max : ℕ)
      → 1 + 1 + ip_length_of a.ip_version + 2 + 1 + length a.connection_id + 16 ≤ bytes_max
      → prepare_preferred_address bytes_max a ≡ coded (ip_length_of a.ip_version) a
  unfolding prepare_preferred_address coded
  prepare_preferred_address-coded bytes_max fits =
      let ip_length = ip_length_of a.ip_version in
      let whole : take 16 a.reset_token ≡ a.reset_token =
        ap (λ (n : ℕ). take n a.reset_token) (sym ok.reset_token) ∙ take_all a.reset_token in
      let id =
        format_connection_id-fits (bytes_max - (1 + 1 + ip_length + 2 + 1)) a.connection_id
          (omega (arith, fits)) in
      let enough = le→leb _ bytes_max fits in simp (enough, id, whole) refl

  after_ip : List ℕ
  after_ip = format_16 a.port ++ (u8 (length a.connection_id) ∷ (a.connection_id ++ a.reset_token))

  take-coded :
      (ip_length : ℕ)
      → ip_length ≤ 16
      → take ip_length (drop 2 (coded ip_length a)) ≡ take ip_length a.ip_address
  unfolding coded after_ip
  take-coded ip_length h =
      let ip = take ip_length a.ip_address in
      ap (λ (n : ℕ). take n (ip ++ after_ip)) (sym (length-ip ip_length h))
      ∙ take-append ip after_ip

  drop-coded :
      (ip_length : ℕ) → ip_length ≤ 16 → drop (2 + ip_length) (coded ip_length a) ≡ after_ip
  unfolding coded after_ip
  drop-coded ip_length h =
      let ip = take ip_length a.ip_address in
      let index : 2 + ip_length ≡ suc (suc (length ip)) = omega (arith, length-ip ip_length h) in
      ap (λ (n : ℕ). drop n (coded ip_length a)) index ∙ drop-append ip after_ip

  byte-coded :
      (ip_length : ℕ)
      → (byte (coded ip_length a) 0 ≡ u8 a.ip_version) × (byte (coded ip_length a) 1 ≡ ip_length)
  unfolding coded
  byte-coded ip_length = (refl, refl)

  decode_preferred_address-coded :
      (old : PreferredAddress) (ip_length : ℕ)
      → ((ip_length ≡ 4) × (a.ip_version ≡ 4)) ⊎ ((ip_length ≡ 16) × (a.ip_version ≡ 6))
      → decode_preferred_address (coded ip_length a) (length (coded ip_length a)) old ≡ (
        record a { ip_address = take ip_length a.ip_address ++ drop ip_length old.ip_address },
        length (coded ip_length a),
      )
  unfolding decode_preferred_address after_ip
  decode_preferred_address-coded old ip_length kind =
      let small = kind_length ip_length a.ip_version kind in
      let size = length-coded ip_length small in
      let (first, second) = byte-coded ip_length in
      let version : u8 a.ip_version ≡ a.ip_version = kind_version ip_length a.ip_version kind in
      let matched = kind_test ip_length a.ip_version kind in
      let long : ltb (length (coded ip_length a)) 21 ≡ false = le→ltb _ _ (omega (arith, size)) in
      let front = take-coded ip_length small in
      let rest = drop-coded ip_length small in
      let addressed = record old {
        ip_version = a.ip_version;
        ip_address = take ip_length a.ip_address ++ drop ip_length old.ip_address;
      } in
      let done =
        decode_address_rest-written a addressed (length (coded ip_length a)) (2 + ip_length) ok
          (omega (arith, size)) in
      let answer : PreferredAddress = record addressed {
        port = a.port;
        connection_id = a.connection_id;
        reset_token = a.reset_token;
      } in
      rw (long, first, version, second, matched, front, rest)
        (done ∙ ap (λ (n : ℕ). (answer, n)) (omega (arith, size)))

kind_of :
    (version : ℕ)
    → (version ≡ 4) ⊎ (version ≡ 6)
    → ((ip_length_of version ≡ 4) × (version ≡ 4)) ⊎ ((ip_length_of version ≡ 16) × (version ≡ 6))
kind_of version h = ground arith

-- A preferred address that was written, of version 4 or 6, is read back whole, whatever was in the
-- place before, but that of an address of version 4 only the first four bytes are sent.
pub decode_preferred_address-prepare_preferred_address :
    (a old : PreferredAddress) (bytes_max : ℕ)
    → IsAddress a
    → 1 + 1 + ip_length_of a.ip_version + 2 + 1 + length a.connection_id + 16 ≤ bytes_max
    → let bytes = prepare_preferred_address bytes_max a in
      let ip_length = ip_length_of a.ip_version in
      decode_preferred_address bytes (length bytes) old ≡ (
        record a { ip_address = take ip_length a.ip_address ++ drop ip_length old.ip_address },
        length bytes,
      )
decode_preferred_address-prepare_preferred_address a old bytes_max ok fits =
    rw (prepare_preferred_address-coded a ok bytes_max fits) (
      decode_preferred_address-coded a ok old (ip_length_of a.ip_version)
        (kind_of a.ip_version ok.ip_version))
