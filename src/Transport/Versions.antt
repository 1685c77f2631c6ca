-- ===== src/Transport/Versions.antt =====
-- The versions in front of the parameters: written by one endpoint, and checked by the other.
use pquic.Base.{
  ℕ, zero, suc, ◌^◌, ◌<◌, ◌≡◌, ◌≢◌, ◌⊎◌, refl, sym, ap, ◌∙◌, true, false, List, ◌∷◌, ◌++◌, length,
  ltb, ◌==◌, arith, inl, inr, ==_iff, le→ltb, ne→==_false,
}
use mathlib.Core.List.{append_assoc}
use pquic.Intformat.{format_32}
use pquic.Intformat.FixedWidth.{parse_32-format_32}
use pquic.Transport.{Endpoint, version_at, supported_versions}
use pquic.Transport.Prepare.{version_header, all_versions}
use pquic.Transport.Receive.{Receiving}
use pquic.Transport.Extensions.{
  at_bytes, client_hello_version, server_versions, server_extension_versions, receive_versions,
}

pub version_at-lt : (index : ℕ) → version_at index < 2 ^ 32
version_at-lt zero = omega arith
version_at-lt (suc zero) = omega arith
version_at-lt (suc (suc zero)) = omega arith
version_at-lt (suc (suc (suc index))) = omega arith

-- Both sides use one version, newer than draft 13, and it is the one that was proposed.
pub record VersionsAgree (mode : ℕ) (sender receiver : Endpoint) : Type 0 where
  pub client : mode ≡ 0 → sender.proposed_version ≡ version_at receiver.version_index
  pub server :
      mode ≡ 1
      → (version_at sender.version_index ≡ version_at receiver.version_index)
        × (receiver.proposed_version ≡ version_at receiver.version_index)
  pub newer : version_at receiver.version_index ≢ 0xFF00000D

client_hello_version-read :
    (version : ℕ) (rest : List ℕ) (s : Receiving)
    → version < 2 ^ 32
    → version ≡ version_at s.endpoint.version_index
    → client_hello_version (format_32 version ++ rest) s ≡ at_bytes s rest
unfolding client_hello_version format_32
client_hello_version-read version rest s small e =
    let long : ltb (length (format_32 version ++ rest)) 4 ≡ false = le→ltb _ _ (omega arith) in
    let same : (version_at s.endpoint.version_index == version) ≡ true = (==_iff _ _).1 (sym e) in
    rw (long, parse_32-format_32 version rest small, same) refl

server_extension_versions-read :
    (version : ℕ) (rest : List ℕ) (s : Receiving)
    → version < 2 ^ 32
    → version ≡ version_at s.endpoint.version_index
    → s.endpoint.proposed_version ≡ version_at s.endpoint.version_index
    → server_extension_versions
        (format_32 version ++ (12 ∷ (all_versions supported_versions ++ rest)))
        s
      ≡ at_bytes s rest
unfolding server_extension_versions server_versions format_32 all_versions
server_extension_versions-read version rest s small e e' =
    let others = all_versions supported_versions ++ rest in
    let long : ltb (length (format_32 version ++ (12 ∷ others))) 4 ≡ false =
      le→ltb _ _ (omega arith) in
    let more : (length (12 ∷ others) == 0) ≡ false =
      ne→==_false _ _ (λ z. absurd (omega (arith, z))) in
    let inside : ltb (length others) 12 ≡ false = le→ltb _ _ (omega arith) in
    let same : (version == version_at s.endpoint.version_index) ≡ true = (==_iff _ _).1 e in
    let proposed = (==_iff s.endpoint.proposed_version _).1 e' in
    rw (long, parse_32-format_32 version (12 ∷ others) small, same, more, inside, proposed) refl

pub receive_versions-version_header :
    (mode : ℕ) (sender receiver : Endpoint) (rest : List ℕ) (s : Receiving)
    → (mode ≡ 0) ⊎ (mode ≡ 1)
    → VersionsAgree mode sender receiver
    → sender.proposed_version < 2 ^ 32
    → s.endpoint.version_index ≡ receiver.version_index
    → s.endpoint.proposed_version ≡ receiver.proposed_version
    → receive_versions mode (version_header mode sender ++ rest) s ≡ at_bytes s rest
unfolding receive_versions version_header
receive_versions-version_header mode sender receiver rest s (inl client) agree small i p =
    rw client (
      client_hello_version-read sender.proposed_version rest s small
        (agree.client client ∙ ap version_at (sym i)))
receive_versions-version_header mode sender receiver rest s (inr server) agree small i p =
    let (e, e') = agree.server server in
    let listed =
      append_assoc (format_32 (version_at sender.version_index))
        (12 ∷ all_versions supported_versions) rest in
    rw server (
      ap (λ (b : List ℕ). server_extension_versions b s) listed
      ∙ server_extension_versions-read (version_at sender.version_index) rest s
          (version_at-lt sender.version_index) (e ∙ ap version_at (sym i))
          (p ∙ e' ∙ ap version_at (sym i)))
