-- ===== src/Qmi/Wds/Settings.antt =====
-- pkg/qmi/wds.go: parseRuntimeSettings. An address is the list of its bytes in network order.
use qmi_go.Base.{ℕ, zero, suc, ◌+◌, List, [], ◌∷◌, Bool, true, false, not, ◌||◌, bit_and}
use qmi_go.Base.{length, take, drop, ltb, ◌==◌, if◌then◌else◌, Option, none, some}
use qmi_go.Base.Words.{byte_at, u16_at, u32_at}
use qmi_go.Qmi.Tlv.{Tlv, find_tlv}

-- `nil` is none.
pub record RuntimeSettings : Type 0 where
  pub ipv4_address : Option (List ℕ)
  pub ipv4_subnet : Option (List ℕ)
  pub ipv4_gateway : Option (List ℕ)
  pub ipv4_dns1 : Option (List ℕ)
  pub ipv4_dns2 : Option (List ℕ)
  pub ipv6_address : Option (List ℕ)
  pub ipv6_prefix : ℕ
  pub ipv6_gateway : Option (List ℕ)
  pub ipv6_dns1 : Option (List ℕ)
  pub ipv6_dns2 : Option (List ℕ)
  pub ipv6_delegated_prefix : Option (List ℕ)
  pub ipv6_delegated_prefix_len : ℕ
  pub mtu : ℕ
  pub pcscf_using_pco : Bool
  pub has_pcscf_using_pco : Bool
  pub pcscf_v4 : List (List ℕ)
  pub pcscf_v6 : List (List ℕ)
  pub pcscf_domains : List (List ℕ)
  pub imcn : Bool
  pub response_tlvs : List Tlv

-- `if tlv := FindTLV(…); tlv != nil && len(tlv.Value) >= size { … }`, with the value without it.
unfoldable pub field {ℓ} : {A : Type ℓ} → ℕ → ℕ → A → (List ℕ → A) → List Tlv → A
field tag size absent read tlvs = elim (find_tlv tlvs tag) [
  | none ↦ absent
  | some t ↦ if ltb (length t.value) size then absent else read t.value
]

-- `net.IPv4(v[3], v[2], v[1], v[0])`
abbrev pub ipv4 : List ℕ → List ℕ
ipv4 v = byte_at v 3 ∷ byte_at v 2 ∷ byte_at v 1 ∷ byte_at v 0 ∷ []

unfoldable pub swap_words : List ℕ → List ℕ
swap_words (a ∷ b ∷ rest) = b ∷ a ∷ swap_words rest
swap_words other = other

unfoldable pub looks_like_delegated_prefix : List ℕ → Bool
looks_like_delegated_prefix ip =
    bit_and (byte_at ip 0) 0xe0 == 0x20 || bit_and (byte_at ip 0) 0xfe == 0xfc

unfoldable pub parse_ipv6_delegated_prefix_address : List ℕ → List ℕ
parse_ipv6_delegated_prefix_address raw =
    if looks_like_delegated_prefix raw
    then raw
    else if looks_like_delegated_prefix (swap_words raw)
    then swap_words raw
    else raw

-- The loops over a list of addresses of `size` bytes, on the body from the address on.
unfoldable pub read_addresses : ℕ → (List ℕ → List ℕ) → ℕ → List ℕ → List (List ℕ)
read_addresses size read zero body = []
read_addresses size read (suc count) body = elim (ltb (length body) size) [
  | true ↦ []
  | false ↦ read (take size body) ∷ read_addresses size read count (drop size body)
]

unfoldable pub read_domains : ℕ → List ℕ → List (List ℕ)
read_domains zero body = []
read_domains (suc count) body =
    elim (ltb (length body) 2 || ltb (length body) (2 + u16_at body 0)) [
      | true ↦ []
      | false ↦
          take (u16_at body 0) (drop 2 body) ∷ read_domains count (drop (2 + u16_at body 0) body)
    ]

-- The entries 0x23, 0x2e and 0x24 past their counts.
unfoldable pub pcscf_v4_of : List ℕ → List (List ℕ)
unfolding read_addresses
pcscf_v4_of value = read_addresses 4 ipv4 (byte_at value 0) (drop 1 value)

unfoldable pub pcscf_v6_of : List ℕ → List (List ℕ)
unfolding read_addresses
pcscf_v6_of value = read_addresses 16 (λ v. v) (byte_at value 0) (drop 1 value)

unfoldable pub pcscf_domains_of : List ℕ → List (List ℕ)
unfolding read_domains
pcscf_domains_of value = read_domains (byte_at value 0) (drop 1 value)

unfoldable pub parse_runtime_settings : List Tlv → RuntimeSettings
unfolding pcscf_v4_of pcscf_v6_of pcscf_domains_of parse_ipv6_delegated_prefix_address
parse_runtime_settings tlvs = record {
  ipv4_address = field 0x1e 4 none (λ v. some (ipv4 v)) tlvs;
  ipv4_subnet = field 0x21 4 none (λ v. some (ipv4 v)) tlvs;
  ipv4_gateway = field 0x20 4 none (λ v. some (ipv4 v)) tlvs;
  ipv4_dns1 = field 0x15 4 none (λ v. some (ipv4 v)) tlvs;
  ipv4_dns2 = field 0x16 4 none (λ v. some (ipv4 v)) tlvs;
  ipv6_address = field 0x25 17 none (λ v. some (take 16 v)) tlvs;
  ipv6_prefix = field 0x25 17 0 (λ v. byte_at v 16) tlvs;
  ipv6_gateway = field 0x26 16 none (λ v. some (take 16 v)) tlvs;
  ipv6_dns1 = field 0x27 16 none (λ v. some (take 16 v)) tlvs;
  ipv6_dns2 = field 0x28 16 none (λ v. some (take 16 v)) tlvs;
  ipv6_delegated_prefix =
      field 0x57 17 none (λ v. some (parse_ipv6_delegated_prefix_address (take 16 v))) tlvs;
  ipv6_delegated_prefix_len = field 0x57 17 0 (λ v. byte_at v 16) tlvs;
  mtu = field 0x29 4 0 (λ v. u32_at v 0) tlvs;
  pcscf_using_pco = field 0x22 1 false (λ v. not (byte_at v 0 == 0)) tlvs;
  has_pcscf_using_pco = field 0x22 1 false (λ v. true) tlvs;
  pcscf_v4 = field 0x23 1 [] pcscf_v4_of tlvs;
  pcscf_v6 = field 0x2e 1 [] pcscf_v6_of tlvs;
  pcscf_domains = field 0x24 1 [] pcscf_domains_of tlvs;
  imcn = field 0x2c 1 false (λ v. not (byte_at v 0 == 0)) tlvs;
  response_tlvs = tlvs;
}
