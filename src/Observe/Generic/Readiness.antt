-- ===== src/Observe/Generic/Readiness.antt =====
-- The readiness probe of internal/observe/readiness.go, by what its two collectors observe.
use joy_pi_health.Prelude.{◌≡◌, ◌⊎◌, ◌↔◌, true, Option, none, arith}
use joy_pi_health.Result.{Result}
use joy_pi_health.Text.{Text}
use joy_pi_health.Errors.{Error}
use joy_pi_health.Observe.Observations.{is_present}
use joy_pi_health.Observe.Generic.{
  Filesystem, collect_host, collect_root_filesystem, probe_readiness,
}
use joy_pi_health.Observe.Generic.Sound.{collected_host, collected_root}

-- The readiness probe succeeds exactly if the hostname is observed, and with it the uptime or the
-- root filesystem: no answer of the source makes it fail in its own checks.
pub probe_readiness_iff :
    (context later : Option Error) (hostname uptime : Result Error Text)
    (usage : Result Error Filesystem)
    → (probe_readiness context later hostname uptime usage ≡ none) ↔ (
        (is_present (collect_host context hostname uptime).hostname ≡ true)
        × ((is_present (collect_host context hostname uptime).uptime ≡ true)
            ⊎ (is_present (collect_root_filesystem later usage) ≡ true)))
unfolding probe_readiness
probe_readiness_iff context later hostname uptime usage =
    let h = collected_host context hostname uptime in
    let r = collected_root later usage in (λ e. ground (arith, h, r), λ e. ground (arith, h, r))
