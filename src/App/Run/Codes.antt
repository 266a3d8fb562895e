-- ===== src/App/Run/Codes.antt =====
-- What the exit code of internal/app/app.go says, and that a started server is released.
use joy_pi_health.Prelude.{
  ℕ, ◌≤◌, ◌≡◌, ◌≢◌, refl, ◌⊎◌, inl, inr, ◌↔◌, Bool, true, false, none, some, List, [], ◌∷◌, arith,
  is_some, ap, sym, ◌∙◌, ◌+◌, if◌then◌else◌, Bool-cases,
}
use joy_pi_health.Result.{Result, ok, err, Result-cases}
use joy_pi_health.Text.{Text}
use joy_pi_health.Config.CommandLine.{Config, ConfigError, help_requested, resolve}
use joy_pi_health.App.Run.{
  signalled, Stopping, Lifecycle, Call, shutting, closing, notifying, Exit, shut_down,
  unexpected_serve_exit, on_event, notify_and_wait, start_failed, operate, not_configured, is_help,
  run,
}

-- The server stops by itself and in time.
abbrev pub IsClean : Stopping → Type 0
IsClean s = (s.shutdown_error ≡ none) × (s.served ≡ some none)

-- A signal ends the service: before the server, during its start, or at one of the waits behind.
abbrev pub IsStopped : Lifecycle → Type 0
IsStopped l =
    (l.signalled_before ≡ true)
    ⊎ ((is_some l.start_error ≡ true) × (l.signalled_by_start ≡ true))
    ⊎ ((l.start_error ≡ none)
        × IsClean l.stopping
        × ((l.early ≡ some signalled)
            ⊎ ((l.early ≡ none)
                × (((is_some l.notify_error ≡ true) × (l.signalled_by_notify ≡ true))
                    ⊎ ((l.notify_error ≡ none) × (l.late ≡ signalled))))))

-- An exit is quiet with code 0, or it has code 1 and says why.
abbrev Says : Exit → Type 0
Says x = ((x.code ≡ 0) × (x.errors ≡ [])) ⊎ ((x.code ≡ 1) × x.errors ≢ [])

shut_down_iff : (s : Stopping) → ((shut_down s).code ≡ 0) ↔ IsClean s
unfolding shut_down
shut_down_iff s = (λ h. ground (arith, h), λ h. ground (arith, h))

operate_iff : (l : Lifecycle) → ((operate l).code ≡ 0) ↔ IsStopped l
unfolding operate start_failed on_event notify_and_wait
operate_iff l = (
  λ h. ground (arith, h, shut_down_iff l.stopping),
  λ h. ground (arith, h, shut_down_iff l.stopping),
)

operate-Says : (l : Lifecycle) → Says (operate l)
unfolding operate start_failed on_event notify_and_wait shut_down
operate-Says l = ground arith

operate_help : (l : Lifecycle) → (operate l).help ≡ false
unfolding operate start_failed on_event notify_and_wait shut_down unexpected_serve_exit
operate_help l = ground arith

is_help_iff : (e : ConfigError) → (is_help e ≡ true) ↔ (e ≡ help_requested)
is_help_iff e = (is_help-eq e, λ p. ap is_help p)
  where
    is_help-eq : (e : ConfigError) → is_help e ≡ true → e ≡ help_requested
    is_help-eq help_requested h = refl
    is_help-eq _ h = cc

abbrev refused : ConfigError → Result ConfigError Config
refused e = err e

err-injective : {x y : ConfigError} → refused x ≡ refused y → x ≡ y
err-injective h = cc

abbrev Refused : ConfigError → Exit → Type 0
Refused e x =
    ((x.code ≡ 0) ↔ (e ≡ help_requested))
    × ((x.code ≡ 2) ↔ (e ≢ help_requested))
    × (x.code ≤ 2)
    × ((x.errors ≡ []) ↔ (x.code ≡ 0))
    × ((x.help ≡ true) ↔ (e ≡ help_requested))

not_configured-Refused : (e : ConfigError) → Refused e (not_configured e)
unfolding not_configured
not_configured-Refused e = elim (Bool-cases (is_help e)) [
  | inl h ↦
      let q = (is_help_iff e).0 h in
      (
        (λ p. q, λ p. ground (arith, h)),
        (λ p. ground (arith, h), λ p. absurd (p q)),
        ground (arith, h),
        (λ p. ground (arith, h), λ p. ground (arith, h)),
        (λ p. q, λ p. ground (arith, h)),
      )
  | inr h ↦
      let q : e ≢ help_requested = λ p. cc ((is_help_iff e).1 p) in
      (
        (λ p. ground (arith, h), λ p. absurd (q p)),
        (λ p. q, λ p. ground (arith, h)),
        ground (arith, h),
        (λ p. ground (arith, h), λ p. ground (arith, h)),
        (λ p. ground (arith, h), λ p. absurd (q p)),
      )
]

-- The process exits with 0 exactly if the help is requested, or its configuration is valid and a signal ends
-- it, where a server that was started stops by itself and in time; it exits with 2 exactly
-- for a configuration that is refused, and with 1 otherwise. It reports an error of its own exactly if the
-- code is not 0, and it writes the help exactly if that is requested.
pub run_exit :
    (args environment : List Text) (l : Lifecycle)
    → (((run args environment l).code ≡ 0) ↔ (
        (resolve args environment ≡ err help_requested)
        ⊎ ((c : Config) × (resolve args environment ≡ ok c) × IsStopped l)))
      × (((run args environment l).code ≡ 2)
          ↔ ((e : ConfigError) × (resolve args environment ≡ err e) × (e ≢ help_requested)))
      × ((run args environment l).code ≤ 2)
      × (((run args environment l).errors ≡ []) ↔ ((run args environment l).code ≡ 0))
      × (((run args environment l).help ≡ true) ↔ (resolve args environment ≡ err help_requested))
unfolding run
run_exit args environment l = elim (Result-cases (resolve args environment)) [
  | inl (e, bad) ↦
      let (zero_iff, two_iff, small, errors_iff, help_iff) = not_configured-Refused e in
      rw (run, bad)
        (
          (
            λ h. inl (ap err (zero_iff.0 h)),
            λ h. elim h [ inl p ↦ zero_iff.1 (err-injective p) | inr (c, p, q) ↦ cc ],
          ),
          (
            λ h. (e, refl, two_iff.0 h),
            λ (d, p, q). two_iff.1 (λ r. q (sym (err-injective p) ∙ r)),
          ),
          small,
          errors_iff,
          (λ h. ap err (help_iff.0 h), λ p. help_iff.1 (err-injective p)),
        )
  | inr (c, good) ↦
      let (there, back) = operate_iff l in
      let says = operate-Says l in
      rw (run, good)
        (
          (λ h. inr (c, refl, there h), λ h. elim h [ inl p ↦ cc | inr (d, p, q) ↦ back q ]),
          (λ h. ground (arith, says, h), λ (d, p, q). cc),
          ground (arith, says),
          (λ h. ground (arith, says, h), λ h. ground (arith, says, h)),
          (λ h. cc (operate_help l), λ p. cc),
        )
]

-- The calls that stop a server.
abbrev pub is_release : Call → Bool
is_release shutting = true
is_release closing = true
is_release notifying = false

abbrev pub releases : List Call → ℕ
releases [] = 0
releases (c ∷ cs) = (if is_release c then 1 else 0) + releases cs

abbrev pub notifications : List Call → ℕ
notifications [] = 0
notifications (c ∷ cs) = (if is_release c then 0 else 1) + notifications cs

-- A server that was started is shut down or closed in the end, whatever else happens, and readiness is
-- notified at most once; without a server there is no call at all.
pub server_released :
    (l : Lifecycle)
    → ((l.signalled_before ≡ false)
        × (l.start_error ≡ none)
        × (1 ≤ releases (operate l).calls)
        × (notifications (operate l).calls ≤ 1))
      ⊎ (((l.signalled_before ≡ true) ⊎ (is_some l.start_error ≡ true)) × ((operate l).calls ≡ []))
unfolding operate start_failed on_event notify_and_wait shut_down unexpected_serve_exit
server_released l = ground arith
