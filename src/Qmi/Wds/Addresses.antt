-- ===== src/Qmi/Wds/Addresses.antt =====
-- The addresses in the settings of a data call of pkg/qmi/wds.go.
use qmi_go.Base.{ℕ, zero, suc, ◌<◌, ◌≡◌, refl, sym, arith, List, [], ◌∷◌, ◌++◌}
use qmi_go.Base.{length, take, length-append, take-append, drop-append, All}
use qmi_go.Base.{append_assoc, map}
use qmi_go.Base.Words.{low_byte, high_byte, u16_bytes, IsU16}
use qmi_go.Qmi.Wds.Settings.{
  read_addresses, read_domains, ipv4, pcscf_v4_of, pcscf_v6_of, pcscf_domains_of,
}

abbrev pub joined : List (List ℕ) → List ℕ
joined [] = []
joined (a ∷ rest) = a ++ joined rest

abbrev pub HasSize : ℕ → List ℕ → Type 0
HasSize size bytes = length bytes ≡ size

-- Every address that a response holds in full is read, up to the count.
read_addresses-joined :
    (size : ℕ) (read : List ℕ → List ℕ) (count : ℕ) (addresses : List (List ℕ)) (rest : List ℕ)
    → All (HasSize size) addresses
    → length rest < size
    → read_addresses size read count (joined addresses ++ rest) ≡ take count (map read addresses)
unfolding read_addresses
read_addresses-joined size read zero addresses rest h cut = refl
read_addresses-joined size read (suc count) [] rest h cut = ground arith
read_addresses-joined size read (suc count) (a ∷ more) rest h cut =
    let tail = joined more ++ rest in
    ground (
      arith,
      append_assoc a (joined more) rest,
      length-append a tail,
      take-append size a tail (sym h.0),
      drop-append size a tail (sym h.0),
      read_addresses-joined size read count more rest h.1 cut,
    )

abbrev pub domains_bytes : List (List ℕ) → List ℕ
domains_bytes [] = []
domains_bytes (d ∷ rest) = low_byte (length d) ∷ high_byte (length d) ∷ (d ++ domains_bytes rest)

abbrev pub FitsLength : List ℕ → Type 0
FitsLength d = IsU16 (length d)

-- A domain that is cut off: in its length, or in the text that the length promises.
pub data IsCut : List ℕ → Type 0 where
  in_length : {rest : List ℕ} → length rest < 2 → IsCut rest
  in_text :
      {n : ℕ} {text : List ℕ} → IsU16 n → length text < n → IsCut (low_byte n ∷ high_byte n ∷ text)

cut-IsSkipped : {rest : List ℕ} (count : ℕ) → IsCut rest → read_domains (suc count) rest ≡ []
unfolding read_domains
cut-IsSkipped {rest} count (in_length h) = ground arith
cut-IsSkipped count (in_text {n = n} {text = text} w h) = ground (arith, u16_bytes n w)

read_domains-bytes :
    (count : ℕ) (domains : List (List ℕ)) (rest : List ℕ)
    → All FitsLength domains
    → IsCut rest
    → read_domains count (domains_bytes domains ++ rest) ≡ take count domains
unfolding read_domains
read_domains-bytes zero domains rest h cut = refl
read_domains-bytes (suc count) [] rest h cut = cut-IsSkipped count cut
read_domains-bytes (suc count) (d ∷ more) rest h cut =
    let tail = domains_bytes more ++ rest in
    ground (
      arith,
      u16_bytes (length d) h.0,
      append_assoc d (domains_bytes more) rest,
      length-append d tail,
      take-append (length d) d tail refl,
      drop-append (length d) d tail refl,
      read_domains-bytes count more rest h.1 cut,
    )

-- The P-CSCF lists of a data call, each behind a count and before an entry that is cut off (fewer
-- than 4 or 16 bytes of an address; of a domain, fewer than the 2 bytes of its length or fewer
-- than that length promises), give the entries that stand in full, up to the count: four bytes of
-- an IPv4 address from the last to the first, sixteen of an IPv6 address as they stand, and each
-- domain as its text.
pub pcscf_lists-entries :
    (count : ℕ) (v4 v6 domains : List (List ℕ)) (rest4 rest6 rest : List ℕ)
    → All (HasSize 4) v4
    → All (HasSize 16) v6
    → All FitsLength domains
    → length rest4 < 4
    → length rest6 < 16
    → IsCut rest
    → (pcscf_v4_of (count ∷ (joined v4 ++ rest4)) ≡ take count (map ipv4 v4))
      × (pcscf_v6_of (count ∷ (joined v6 ++ rest6)) ≡ take count (map (λ a. a) v6))
      × (pcscf_domains_of (count ∷ (domains_bytes domains ++ rest)) ≡ take count domains)
unfolding pcscf_v4_of pcscf_v6_of pcscf_domains_of
pcscf_lists-entries count v4 v6 domains rest4 rest6 rest h4 h6 hd cut4 cut6 cut = (
  read_addresses-joined 4 ipv4 count v4 rest4 h4 cut4,
  read_addresses-joined 16 (λ a. a) count v6 rest6 h6 cut6,
  read_domains-bytes count domains rest hd cut,
)
