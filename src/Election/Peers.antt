-- ===== src/Election/Peers.antt =====
-- The addresses under which a framework sends to its peers: make_pinfo of
-- src/discoverymgr/discovery_mgr.cpp.
use Prim.Native.Char.{code}
use Prim.Native.String.{◌++◌ as str_append}
use text.Mathlib.TextLemmas.{nil-append, cons-append}
use ability_framework.Prelude.{
  ℕ, String, Bool, true, false, Option, none, some, List, [], ◌∷◌, ◌++◌, ◌≡◌, ◌≢◌, refl, ap, ◌∙◌,
  sym, arith, All, if◌then◌else◌,
}
use ability_framework.Prelude.Int.{ℤ, pos, negsuc, eqb_ℤ}
use ability_framework.Election.Message.{PeerInfo, ElectionMsg, Answer, timeout}
use ability_framework.Discovery.Teams.{Peer}
use ability_framework.Election.Bully.{add_address}
use ability_framework.Election.Addresses.{
  slash, HttpOverIpv4, from_segments, multiaddr_segments, send_to, send_address,
}
use ability_framework.Election.Segments.{
  IsSegment, address_of, append_nil, multiaddr_segments-address_of,
}
use ability_framework.Election.Posts.{codes}

-- How a stream writes an int.
module _ (digits : ℤ → String) where
  abbrev pub suffix : ℤ → String
  suffix port = if eqb_ℤ port (pos 8080) then "" else str_append "/http/" (digits port)

  abbrev pub ip4_address : String → ℤ → String
  ip4_address ip port = str_append "/ip4/" (str_append ip (suffix port))

  abbrev pub ip6_address : String → ℤ → String
  ip6_address ip port = str_append "/ip6/" (str_append ip (suffix port))

  unfoldable pub add_ip4 : ℤ → List String → List String → List String
  add_ip4 port [] addresses = addresses
  add_ip4 port (ip ∷ ips) addresses = add_ip4 port ips (add_address (ip4_address ip port) addresses)

  unfoldable pub add_ip6 : ℤ → List String → List String → List String
  add_ip6 port [] addresses = addresses
  add_ip6 port (ip ∷ ips) addresses = add_ip6 port ips (add_address (ip6_address ip port) addresses)

  abbrev pub pinfo_of : Option ℕ → Peer → Option PeerInfo
  pinfo_of none p = none
  pinfo_of (some id) p =
      some (record { id = id; addresses = add_ip6 p.port p.ipv6 (add_ip4 p.port p.ipv4 []) })

  -- `from_string` reads a uuid.
  unfoldable pub make_pinfo : (String → Option ℕ) → String → Peer → Option PeerInfo
  make_pinfo from_string id p = pinfo_of (from_string id) p

codes-append : (s t : String) → codes (str_append s t) ≡ codes s ++ codes t
codes-append String.[] t = ap codes (nil-append t)
codes-append (String.◌∷◌ c s) t =
    ap codes (cons-append c s t) ∙ ap (λ r. code c ∷ r) (codes-append s t)

eqb_ℤ-eq : (a : ℤ) → eqb_ℤ a (pos 8080) ≡ true → a ≡ pos 8080
eqb_ℤ-eq (pos n) e = ap pos (ground (arith, e))
eqb_ℤ-eq (negsuc n) e = ground (arith, e)

abbrev pub protocol_segments : List ℕ → Bool → List (List ℕ)
protocol_segments port true = []
protocol_segments port false = (b'h' ∷ b't' ∷ b't' ∷ b'p' ∷ []) ∷ port ∷ []

codes-suffix :
    (digits : ℤ → String) (port : ℤ) (usual : Bool)
    → eqb_ℤ port (pos 8080) ≡ usual
    → codes (suffix digits port) ≡ address_of (protocol_segments (codes (digits port)) usual)
codes-suffix digits port true e = rw e refl
codes-suffix digits port false e = rw e (
    codes-append "/http/" (digits port)
    ∙ ap (λ r. codes "/http/" ++ r) (sym (append_nil (codes (digits port)))))

codes-address :
    (digits : ℤ → String) (family ip : String) (port : ℤ) (usual : Bool)
    → eqb_ℤ port (pos 8080) ≡ usual
    → codes (str_append family (str_append ip (suffix digits port)))
      ≡ codes family ++ (codes ip ++ address_of (protocol_segments (codes (digits port)) usual))
codes-address digits family ip port usual e =
    codes-append family (str_append ip (suffix digits port))
    ∙ ap (λ r. codes family ++ r)
        (codes-append ip (suffix digits port)
          ∙ ap (λ r. codes ip ++ r) (codes-suffix digits port usual e))

-- What the parts of an address have to be: the IP address and the port's digits are segments, the IP
-- address is one, and from_chars reads the digits back.
abbrev pub IsReadable : (ℤ → String) → (List ℕ → Bool) → (List ℕ → Option ℤ) → String → ℤ → Type 0
IsReadable digits is_valid_ipv4 from_chars ip port =
    IsSegment (codes ip)
    × (is_valid_ipv4 (codes ip) ≡ true)
    × IsSegment (codes (digits port))
    × (from_chars (codes (digits port)) ≡ some port)

-- "ip4" and "ip6"
abbrev ip_family : ℕ → List ℕ
ip_family version = b'i' ∷ b'p' ∷ version ∷ []

ip_family-IsSegment : (version : ℕ) → version ≢ slash → IsSegment (ip_family version)
ip_family-IsSegment version h =
    ((λ e. cc), ((λ e. absurd (omega arith)), ((λ e. absurd (omega arith)), (h, tt))))

protocol_segments-IsSegment :
    (port : List ℕ) (usual : Bool) → IsSegment port → All IsSegment (protocol_segments port usual)
protocol_segments-IsSegment port true h = tt
protocol_segments-IsSegment port false h = (
  (
    (λ e. cc),
    (
      (λ e. absurd (omega arith)),
      (
        (λ e. absurd (omega arith)),
        ((λ e. absurd (omega arith)), ((λ e. absurd (omega arith)), tt)),
      ),
    ),
  ),
  (h, tt),
)

module _ (digits : ℤ → String) (is_valid_ipv4 : List ℕ → Bool) (from_chars : List ℕ → Option ℤ)
    (send : HttpOverIpv4 → ElectionMsg → Answer) where
  from_segments-protocol_segments :
      (ip : List ℕ) (port : ℤ) (usual : Bool)
      → eqb_ℤ port (pos 8080) ≡ usual
      → is_valid_ipv4 ip ≡ true
      → from_chars (codes (digits port)) ≡ some port
      → from_segments is_valid_ipv4 from_chars
          (ip_family b'4' ∷ ip ∷ protocol_segments (codes (digits port)) usual)
        ≡ some (record { addr = ip; port = port })
  unfolding from_segments
  from_segments-protocol_segments ip port true e valid r = rw (valid, eqb_ℤ-eq port e) refl
  from_segments-protocol_segments ip port false e valid r = rw (valid, r) refl

  segments_of :
      (version : ℕ) (family ip : String) (port : ℤ)
      → codes family ≡ slash ∷ (ip_family version ++ slash ∷ [])
      → version ≢ slash
      → IsSegment (codes ip)
      → IsSegment (codes (digits port))
      → multiaddr_segments (codes (str_append family (str_append ip (suffix digits port))))
        ≡ ip_family version
          ∷ codes ip
          ∷ protocol_segments (codes (digits port)) (eqb_ℤ port (pos 8080))
  segments_of version family ip port f v h k =
      let segments =
        ip_family version
        ∷ codes ip
        ∷ protocol_segments (codes (digits port)) (eqb_ℤ port (pos 8080)) in
      ap multiaddr_segments (codes-address digits family ip port _ refl)
      ∙ ap
          (λ start. multiaddr_segments (
            start
            ++ (codes ip
                ++ address_of (protocol_segments (codes (digits port)) (eqb_ℤ port (pos 8080))))))
          f
      ∙ multiaddr_segments-address_of segments (
        ip_family-IsSegment version v,
        (h, protocol_segments-IsSegment (codes (digits port)) _ k),
      )

  from_segments-ip6 :
      (ip port : List ℕ) (usual : Bool)
      → from_segments is_valid_ipv4 from_chars (ip_family b'6' ∷ ip ∷ protocol_segments port usual)
        ≡ none
  unfolding from_segments
  from_segments-ip6 ip port true = refl
  from_segments-ip6 ip port false = refl

  -- If a peer's IP address is a valid one of version 4, neither it nor the digits of the peer's port are
  -- empty or have a slash, and the port is read back from its digits, then a message to the address
  -- that is made of the two goes to that IP address at that port, 8080 or another; while a message to
  -- the address that is made of the port and an IP address of version 6, not empty and without a slash,
  -- is a timeout.
  pub send_address-ip_address :
      (ip ip6 : String) (port : ℤ) (m : ElectionMsg)
      → IsReadable digits is_valid_ipv4 from_chars ip port
      → IsSegment (codes ip6)
      → (send_address is_valid_ipv4 from_chars send (codes (ip4_address digits ip port)) m
          ≡ send (record { addr = codes ip; port = port }) m)
        × (send_address is_valid_ipv4 from_chars send (codes (ip6_address digits ip6 port)) m
            ≡ timeout)
  unfolding send_address
  send_address-ip_address ip ip6 port m (h, valid, k, r) h6 = (
    ap (λ ss. send_to is_valid_ipv4 from_chars send (from_segments is_valid_ipv4 from_chars ss) m)
          (segments_of b'4' "/ip4/" ip port refl (λ e. absurd (omega (arith, e))) h k)
        ∙ ap (λ http. send_to is_valid_ipv4 from_chars send http m)
            (from_segments-protocol_segments (codes ip) port _ refl valid r),
    ap (λ ss. send_to is_valid_ipv4 from_chars send (from_segments is_valid_ipv4 from_chars ss) m)
          (segments_of b'6' "/ip6/" ip6 port refl (λ e. absurd (omega (arith, e))) h6 k)
        ∙ ap (λ http. send_to is_valid_ipv4 from_chars send http m)
            (from_segments-ip6 (codes ip6) (codes (digits port)) _),
  )
