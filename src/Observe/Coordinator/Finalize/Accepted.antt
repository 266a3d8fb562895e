-- ===== src/Observe/Coordinator/Finalize/Accepted.antt =====
-- What agrees with the expected issues passes `validateIssues` and `validateFirmwareIssues`.
use joy_pi_health.Prelude.{
  ℕ, suc, ◌≡◌, refl, ap, subst, Bool, Option, none, some, List, [], ◌∷◌, arith, All, Bool-cases,
  length, ==_iff, inl, inr,
}
use joy_pi_health.Text.{Text, text_eq_refl, text_eq_iff}
use joy_pi_health.Snapshot.{Issue}
use joy_pi_health.Snapshot.Validate.{
  validate_issue, validate_each, validate_issues, is_firmware_path, coherent_from,
  validate_firmware_issues,
}
use joy_pi_health.Observe.Coordinator.Finalize.Total.{code_of, message_of}
use joy_pi_health.Observe.Coordinator.Finalize.Agreement.{Agree, IsGood, paths}

validate_issue_good : (r : ℕ) (i : Issue) → IsGood r i → validate_issue i i.path ≡ none
unfolding validate_issue
validate_issue_good r i (c, e, u, _) = rw (text_eq_refl i.path, c, e, u)

validate_each_good :
    (r : ℕ) (is : List Issue) → All (IsGood r) is → validate_each is (paths is) ≡ none
unfolding validate_each
validate_each_good r [] h = refl
validate_each_good r (i ∷ is) (h, hs) = rw (validate_issue_good r i h, validate_each_good r is hs)

length-paths : (is : List Issue) → length is ≡ length (paths is)
length-paths [] = refl
length-paths (i ∷ is) = ap suc (length-paths is)

pub validate_issues_of_Agree :
    (r : ℕ) (is : List Issue) (expected : List Text)
    → Agree r is expected
    → validate_issues is expected ≡ none
unfolding validate_issues
validate_issues_of_Agree r is expected a =
    subst (λ e. validate_issues is e ≡ none) a.same
      (rw ((==_iff (length is) (length (paths is))).1 (length-paths is), validate_issues)
        (validate_each_good r is a.good))

coherent_some :
    (r : ℕ) (first : Issue) (is : List Issue)
    → first.code ≡ code_of r
    → first.message ≡ message_of r
    → All (IsGood r) is
    → coherent_from (some first) is ≡ none
unfolding coherent_from
coherent_some r first [] c m h = refl
coherent_some r first (i ∷ is) c m ((_, _, _, agrees), hs) = ground (
  arith,
  agrees,
  coherent_some r first is c m hs,
  text_eq_iff i.code first.code,
  text_eq_iff i.message first.message,
)

coherent_none : (r : ℕ) (is : List Issue) → All (IsGood r) is → coherent_from none is ≡ none
unfolding coherent_from
coherent_none r [] h = refl
coherent_none r (i ∷ is) ((_, _, _, agrees), hs) = elim (Bool-cases (is_firmware_path i.path)) [
  | inl p ↦ rw p (coherent_some r i is (agrees p).0 (agrees p).1 hs)
  | inr p ↦ rw p (coherent_none r is hs)
]

pub validate_firmware_of_Agree :
    (r : ℕ) (active : Option Bool) (is : List Issue) (expected : List Text)
    → Agree r is expected
    → validate_firmware_issues active is ≡ none
unfolding validate_firmware_issues
validate_firmware_of_Agree r none is expected a = coherent_none r is a.good
validate_firmware_of_Agree r (some active) is expected a = refl
