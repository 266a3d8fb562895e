-- ===== src/Snapshot/Encode.antt =====
-- `Encode`: the checks in their order, the marshalled body, and its limit. `Encoded` is its bytes.
use joy_pi_health.Prelude.{
  ℕ, ◌≡◌, refl, Bool, true, false, not, none, ltb, ◌==◌, if◌then◌else◌, length,
}
use joy_pi_health.Result.{Result, ok, err, ◌>>=◌, ◌>>◌}
use joy_pi_health.Text.{Text, bytes}
use joy_pi_health.Errors.{Error, plain, sentinel, no_useful_snapshot, ensure, check}
use joy_pi_health.Numbers.{Float64, Calendar}
use joy_pi_health.Snapshot.{Snapshot, maximum_size}
use joy_pi_health.Snapshot.Validate.{validate_issues, validate_firmware_issues}
use joy_pi_health.Snapshot.Document.{WireDocument, Tally, build_document}
use joy_pi_health.Snapshot.Json.{marshal}

pub record Encoded : Type 0 where
  pub body : Text

-- `Encoded.Valid` and `Encoded.Len`.
unfoldable pub is_valid_body : Encoded → Bool
is_valid_body e = not (length e.body == 0)

unfoldable pub encoded_length : Encoded → ℕ
encoded_length e = length e.body

abbrev pub within_limit : Text → Result Error Encoded
within_limit body =
    if ltb maximum_size (length body)
    then err (plain (bytes "encoded snapshot exceeds the maximum"))
    else ok (record { body = body })

module _ {F T : Type 0} ⦃f : Float64 F⦄ ⦃c : Calendar T⦄ where
  unfoldable pub encode : Snapshot F T → Result Error Encoded
  encode s = do
    (document, t) ← build_document s
    check (validate_issues s.issues t.expected)
    check (validate_firmware_issues s.raspberry_pi.thermal_throttling_active s.issues)
    ensure (not (t.usable == 0)) (sentinel no_useful_snapshot)
    body ← marshal (record document { issues = s.issues })
    within_limit body

  -- The end of `encode`, once the checks have passed.
  pub encode_checked :
      (s : Snapshot F T) (d : WireDocument F) (t : Tally)
      → build_document s ≡ ok (d, t)
      → validate_issues s.issues t.expected ≡ none
      → validate_firmware_issues s.raspberry_pi.thermal_throttling_active s.issues ≡ none
      → encode s ≡ (
          if t.usable == 0
          then err (sentinel no_useful_snapshot)
          else (marshal (record d { issues = s.issues }) >>= within_limit))
  unfolding encode
  encode_checked s d t b i c = rw (b, i, c) (last (t.usable == 0))
    where
      last :
          (z : Bool)
          → (ensure (not z) (sentinel no_useful_snapshot)
              >> (marshal (record d { issues = s.issues }) >>= within_limit))
            ≡ (if z
                then err (sentinel no_useful_snapshot)
                else (marshal (record d { issues = s.issues }) >>= within_limit))
      last true = refl
      last false = refl
