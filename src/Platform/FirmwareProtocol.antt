-- ===== src/Platform/FirmwareProtocol.antt =====
-- internal/platform/firmware_protocol.go: buffers as lists of bytes, words as numbers below 2^32.
pub mod Properties
use joy_pi_health.Prelude.{
  ℕ, zero, suc, ◌+◌, ◌-◌, ◌*◌, ◌/◌, ◌%◌, ◌^◌, ◌≡◌, ◌<◌, refl, Bool, true, false, not, ◌&&◌, ◌||◌,
  Option, none, some, List, [], ◌∷◌, ◌++◌, arith, ltb, ◌==◌, if◌then◌else◌, length, take, drop,
}
use joy_pi_health.Result.{Result, ok, err}
use joy_pi_health.Text.{Text, bytes, has_prefix, trim_prefix, cut}
use joy_pi_health.Text.Fields.{trim_space}
use joy_pi_health.Text.Decimal.{parse_uint}
use joy_pi_health.Errors.{Error, sentinel, wrapped, malformed_firmware_response}

abbrev firmware_request_code : ℕ
firmware_request_code = 0

abbrev pub firmware_response_ok : ℕ
firmware_response_ok = 0x80000000

-- The bit of a length that marks a response.
abbrev pub firmware_tag_response : ℕ
firmware_tag_response = 0x80000000

abbrev pub firmware_get_throttled : ℕ
firmware_get_throttled = 0x00030046

abbrev firmware_get_command : ℕ
firmware_get_command = 0x00030080

abbrev pub firmware_end_tag : ℕ
firmware_end_tag = 0

abbrev firmware_command_bytes : ℕ
firmware_command_bytes = 4096

-- `putWord`: the four bytes of a word, the lowest first.
abbrev pub put_word : ℕ → Text → Text
put_word n rest = n % 0x100 ∷ n / 0x100 % 0x100 ∷ n / 0x10000 % 0x100 ∷ n / 0x1000000 % 0x100 ∷ rest

abbrev pub put_words : List ℕ → Text → Text
put_words [] rest = rest
put_words (n ∷ ns) rest = put_word n (put_words ns rest)

-- `word`: the word at an index; the callers have tested the length.
abbrev pub word : ℕ → Text → ℕ
word zero (a ∷ b ∷ c ∷ d ∷ rest) = a + 0x100 * b + 0x10000 * c + 0x1000000 * d
word (suc i) (a ∷ b ∷ c ∷ d ∷ rest) = word i rest
word _ _ = 0

abbrev zeros : ℕ → Text → Text
zeros zero rest = rest
zeros (suc n) rest = 0 ∷ zeros n rest

unfoldable pub build_get_throttled_property_request : Text
build_get_throttled_property_request =
    put_words
      (28 ∷ firmware_request_code ∷ firmware_get_throttled ∷ 4 ∷ 0 ∷ 0 ∷ firmware_end_tag ∷ []) []

abbrev pub malformed : {A : Type 0} → Result Error A
malformed = err (sentinel malformed_firmware_response)

unfoldable pub parse_get_throttled_property_response : Text → Result Error ℕ
parse_get_throttled_property_response buffer =
    if not (length buffer == 28)
      || not (word 0 buffer == 28)
      || not (word 1 buffer == firmware_response_ok)
      || not (word 2 buffer == firmware_get_throttled)
      || not (word 3 buffer == 4)
      || not (word 6 buffer == firmware_end_tag)
    then malformed
    else if ltb (word 4 buffer) firmware_tag_response
        || not (word 4 buffer % firmware_tag_response == 4)
    then malformed
    else ok (word 5 buffer)

unfoldable pub build_get_throttled_command_request : Text
build_get_throttled_command_request =
    put_words
      (4124 ∷ firmware_request_code ∷ firmware_get_command ∷ firmware_command_bytes ∷ 0 ∷ 0 ∷ [])
      (bytes "get_throttled" ++ zeros 4083 (put_words (firmware_end_tag ∷ []) []))

abbrev response_prefix : Text
response_prefix = bytes "throttled=0x"

-- The text of a response, up to its first zero byte and without white space around it.
unfoldable pub read_mask : Text → Result Error ℕ
read_mask response =
    if not (has_prefix response response_prefix)
      || (length response == 12)
      || ltb 20 (length response)
    then malformed
    else elim (parse_uint 16 0xffffffff (trim_prefix response response_prefix)) [
      | none ↦ err (wrapped [] (sentinel malformed_firmware_response))
      | some mask ↦ ok mask
    ]

unfoldable pub parse_get_throttled_command_response : Text → Result Error ℕ
unfolding read_mask
parse_get_throttled_command_response buffer =
    let count = word 4 buffer % firmware_tag_response in
    if not (length buffer == 4124)
      || not (word 0 buffer == 4124)
      || not (word 1 buffer == firmware_response_ok)
      || not (word 2 buffer == firmware_get_command)
      || not (word 3 buffer == firmware_command_bytes)
      || not (word 1030 buffer == firmware_end_tag)
    then malformed
    else if ltb (word 4 buffer) firmware_tag_response
        || ltb count 4
        || ltb firmware_command_bytes count
        || not (word 5 buffer == 0)
    then malformed
    else read_mask (trim_space ((cut 0 (take (count - 4) (drop 24 buffer))).0))
