-- ===== src/Manager/Smsc.antt =====
-- pkg/manager/smsc.go: the address of the service centre out of the bytes of a SIM file. A text is the list
-- of its characters' numbers. A decoded address has digits and a sign only, so TrimSpace leaves it as it is.
pub mod RoundTrip
pub mod Records
use qmi_go.Base.{
  ℕ, zero, suc, ◌+◌, ◌-◌, ◌*◌, ◌/◌, ◌%◌, List, [], ◌∷◌, ◌++◌, Bool, true, false, ◌&&◌, ◌||◌, not,
}
use qmi_go.Base.{length, take, drop, ltb, leb, ◌==◌, if◌then◌else◌, Option, none, some, bit_and}
use qmi_go.Base.Words.{byte_at}

-- One half of a byte: a digit, the filler 0xF, or an error.
unfoldable pub decode_nibble : ℕ → Option (List ℕ)
decode_nibble n = if leb n 9 then some ((48 + n) ∷ []) else if n == 15 then some [] else none

unfoldable pub join : Option (List ℕ) → Option (List ℕ) → Option (List ℕ)
join none r = none
join (some xs) none = none
join (some xs) (some ys) = some (xs ++ ys)

-- The low half of a byte comes first.
unfoldable pub decode_bcd : List ℕ → Option (List ℕ)
decode_bcd [] = some []
decode_bcd (b ∷ bs) =
    join (decode_nibble (b % 16)) (join (decode_nibble (b / 16 % 16)) (decode_bcd bs))

unfoldable pub address_prefix : ℕ → List ℕ
address_prefix ton = if bit_and ton 0x70 == 0x10 then 43 ∷ [] else []

-- `decodeAddressValue`
unfoldable pub decode_address_value : List ℕ → Option (List ℕ)
decode_address_value [] = none
decode_address_value (ton ∷ bcd) = join (some (address_prefix ton)) (decode_bcd bcd)

unfoldable pub all_digits : List ℕ → Bool
all_digits [] = true
all_digits (c ∷ cs) = leb 48 c && (leb c 57 && all_digits cs)

unfoldable pub without_plus : List ℕ → List ℕ
without_plus [] = []
without_plus (c ∷ cs) = if c == 43 then cs else c ∷ cs

-- `isLikelySMSC`
unfoldable pub is_likely_smsc : List ℕ → Bool
is_likely_smsc smsc =
    let v = without_plus smsc in not (ltb (length v) 5) && (not (ltb 16 (length v)) && all_digits v)

-- What a likely address is, and else nothing.
unfoldable pub likely : Option (List ℕ) → List ℕ
likely none = []
likely (some smsc) = if is_likely_smsc smsc then smsc else []

unfoldable pub each_byte : List ℕ → ℕ → Bool
each_byte [] value = true
each_byte (b ∷ bs) value = b == value && each_byte bs value

-- `allBytes`
unfoldable pub all_bytes : List ℕ → ℕ → Bool
all_bytes [] value = false
all_bytes (b ∷ bs) value = b == value && each_byte bs value

-- `parseSMSCFromTSServiceCentreAddress`
unfoldable pub parse_smsc_from_ts_service_centre_address : List ℕ → List ℕ
parse_smsc_from_ts_service_centre_address raw =
    let len = byte_at raw 0 in
    if length raw == 0 || all_bytes raw 0xff
    then []
    else if ltb len 2 || len == 0xff
    then []
    else if ltb (length raw) (1 + len)
    then []
    else likely (decode_address_value (take len (drop 1 raw)))

-- `decodeSMSCAtOffset`; the empty text is none.
unfoldable pub decode_smsc_at_offset : List ℕ → ℕ → List ℕ
decode_smsc_at_offset buf offset =
    let len = byte_at buf offset in
    let kind = byte_at buf (offset + 1) in
    if leb (length buf - 1) offset
    then []
    else if ltb len 2 || ltb 12 len
    then []
    else if ltb (length buf) (offset + 1 + len)
    then []
    else if kind == 0x00 || (kind == 0xff || bit_and kind 0x80 == 0)
    then []
    else likely (decode_address_value (take len (drop (offset + 1) buf)))

unfoldable pub or_text : List ℕ → List ℕ → List ℕ
or_text [] rest = rest
or_text (c ∷ cs) rest = c ∷ cs

-- The scan of `parseSMSCFromSMSPRecord`, with the number of offsets that are left.
unfoldable pub scan_record : List ℕ → ℕ → ℕ → List ℕ
scan_record record_bytes zero offset = []
scan_record record_bytes (suc left) offset =
    let rest = scan_record record_bytes left (offset + 1) in
    if offset == 13 then rest else or_text (decode_smsc_at_offset record_bytes offset) rest

-- `parseSMSCFromSMSPRecord`
unfoldable pub parse_smsc_from_smsp_record : List ℕ → List ℕ
parse_smsc_from_smsp_record bytes =
    or_text (decode_smsc_at_offset bytes 13) (scan_record bytes (length bytes - 2) 0)
