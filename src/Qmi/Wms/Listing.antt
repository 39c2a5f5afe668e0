-- ===== src/Qmi/Wms/Listing.antt =====
-- The message list of a response: complete entries, as many as the count says and the value has.
use qmi_go.Base.{ℕ, zero, suc, ◌<◌, ◌≡◌, refl, arith}
use qmi_go.Base.{List, [], ◌∷◌, ◌++◌, length, take, All, some}
use qmi_go.Base.Words.{IsU32, put_u32, u32_parts}
use qmi_go.Qmi.Wms.{entry}
use qmi_go.Qmi.Wms.Responses.{message_list, read_message_list}

-- The entries as the value has them: the index and the tag of each.
abbrev pub listed : List (ℕ × ℕ) → List ℕ
listed [] = []
listed ((index, tag) ∷ more) = put_u32 index (tag ∷ listed more)

abbrev pub IsListed : ℕ × ℕ → Type 0
IsListed (index, tag) = IsU32 index

read_message_list-listed :
    (count : ℕ) (messages : List (ℕ × ℕ)) (rest : List ℕ)
    → All IsListed messages
    → length rest < 5
    → read_message_list count (listed messages ++ rest) ≡ take count messages
unfolding read_message_list
read_message_list-listed zero messages rest h short = refl
read_message_list-listed (suc count) [] rest h short = ground arith
read_message_list-listed (suc count) ((index, tag) ∷ more) rest h short =
    ground (arith, u32_parts index h.0, read_message_list-listed count more rest h.1 short)

-- A list of messages with any count in front, and fewer than five bytes behind, gives the first
-- of them up to the count, and all of them where the count is larger.
pub message_list-listed :
    (count : ℕ) (messages : List (ℕ × ℕ)) (rest : List ℕ)
    → IsU32 count
    → All IsListed messages
    → length rest < 5
    → message_list (some (entry 0x01 (put_u32 count (listed messages ++ rest))))
      ≡ take count messages
unfolding message_list
message_list-listed count messages rest fits h short =
    ground (arith, u32_parts count fits, read_message_list-listed count messages rest h short)
