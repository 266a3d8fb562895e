-- ===== src/Platform/FirmwareDevices.antt =====
-- `GetThrottled` of internal/platform/firmware_linux.go: the restricted device first, and the general one
-- where the first is missing or denied. The arguments are what the two transactions answer.
use joy_pi_health.Prelude.{
  ℕ, ◌≡◌, refl, ◌⊎◌, inl, inr, ◌↔◌, true, not, ◌&&◌, ◌||◌, arith, if◌then◌else◌,
}
use joy_pi_health.Result.{Result, ok, err}
use joy_pi_health.Text.{Text, bytes}
use joy_pi_health.Errors.{Error, sentinel, wrapped, is, permission, not_exist}

-- The answers of `os.Open` and of the request to the device; the buffer is what the device made of it.
unfoldable pub transact_firmware : Result Error Text → (Text → Result Error ℕ) → Result Error ℕ
transact_firmware (err e) parse = err e
transact_firmware (ok buffer) parse = parse buffer

-- The error of two transactions that failed.
unfoldable pub both_failed : Error → Error → Error
both_failed restricted general =
    if is restricted permission || is general permission
    then wrapped (bytes "firmware devices denied access: ") (sentinel permission)
    else if is restricted not_exist && is general not_exist
    then wrapped (bytes "firmware devices unavailable: ") (sentinel not_exist)
    else general

unfoldable pub get_throttled : Result Error ℕ → Result Error ℕ → Result Error ℕ
unfolding both_failed
get_throttled (ok mask) general = ok mask
get_throttled (err e) general =
    if not (is e not_exist) && not (is e permission)
    then err e
    else elim general [ ok mask ↦ ok mask | err d ↦ err (both_failed e d) ]

-- A mask comes from the restricted device, or from the general one where the restricted one is missing
-- or denied, and from nowhere else. Where both fail, the error is a denied permission
-- exactly if one of the two is, and otherwise a missing device exactly if the general one is missing.
pub get_throttled_sound :
    (restricted general : Result Error ℕ)
    → ((mask : ℕ)
        → (get_throttled restricted general ≡ ok mask) ↔ (
            (restricted ≡ ok mask)
            ⊎ ((e : Error) × (restricted ≡ err e)
                × ((is e not_exist || is e permission) ≡ true)
                × (general ≡ ok mask))))
      × ((e d x : Error)
          → restricted ≡ err e
          → general ≡ err d
          → (is e not_exist || is e permission) ≡ true
          → get_throttled restricted general ≡ err x
          → (is x permission ≡ (is e permission || is d permission))
            × (is x not_exist ≡ (not (is e permission || is d permission) && is d not_exist)))
unfolding get_throttled both_failed is
get_throttled_sound restricted general = (
  λ mask. (λ h. from_one restricted general mask h, λ h. to_one restricted general mask h),
  λ e d x p q k h. ground (arith, p, q, k, h),
)
  where
    from_one :
        (r g : Result Error ℕ) (mask : ℕ)
        → get_throttled r g ≡ ok mask
        → (r ≡ ok mask)
          ⊎ ((e : Error) × (r ≡ err e)
              × ((is e not_exist || is e permission) ≡ true)
              × (g ≡ ok mask))
    from_one (ok m) g mask h = inl h
    from_one (err e) (ok m) mask h = ground arith
    from_one (err e) (err d) mask h = ground arith

    to_one :
        (r g : Result Error ℕ) (mask : ℕ)
        → (r ≡ ok mask)
          ⊎ ((e : Error) × (r ≡ err e)
              × ((is e not_exist || is e permission) ≡ true)
              × (g ≡ ok mask))
        → get_throttled r g ≡ ok mask
    to_one r g mask (inl p) = rw p refl
    to_one r g mask (inr (e, p, k, q)) = rw (p, q) (ground (arith, k))
