-- ===== src/Pool/Tests/Choices.antt =====
-- The theorems about `nextFor` at small pools.
use edge_proxy_go.Base.{
  ℕ, ◌+◌, ◌%◌, ◌≡◌, refl, ◌↔◌, [], ◌∷◌, none, some, All, get_elem?, length, ℤ, pos, ◌==ₛ◌, ◌+ℤ◌,
  ◌-ℤ◌,
}
use edge_proxy_go.Samples.{thousandths, thousandths-IsOrdered, thousandths_number}
use edge_proxy_go.Pool.Entry.{backend_score, avg_latency_ms}
use edge_proxy_go.Pool.Select.{
  Candidate, next_for, address_at, collect, visit, candidate_score, sort_stable, insert, less,
}
use edge_proxy_go.Pool.Select.Candidates.{score}
use edge_proxy_go.Pool.Select.Eligible.{IsEligible}
use edge_proxy_go.Pool.Select.Sound.{Chosen, candidates, next_for-Chosen, next_for-none_iff}
use edge_proxy_go.Pool.Select.Least.{IsBest, next_for-IsBest}
use edge_proxy_go.Pool.Select.Rotation.{rota, turns, after_choices, next_for-rota}
use edge_proxy_go.Pool.Tests.{two_to_one, first_choice, named, steady}

next_for-Chosen_example :
    Chosen 100 none two_to_one (next_for 100 none two_to_one).0 (next_for 100 none two_to_one).1
next_for-Chosen_example = next_for-Chosen 100 none two_to_one first_choice

next_for-none_iff_example :
    ((next_for 100 none two_to_one).1 ≡ "") ↔ All (λ e. ¬ IsEligible 100 none e) two_to_one.backends
next_for-none_iff_example = next_for-none_iff 100 none two_to_one named

next_for-IsBest_example :
    (c : Chosen 100 none two_to_one
      (next_for 100 none two_to_one).0
      (next_for 100 none two_to_one).1)
    × IsBest thousandths-IsOrdered 100 none two_to_one c.entry
next_for-IsBest_example =
    next_for-IsBest thousandths-IsOrdered 100 none two_to_one
      (λ k x at e. thousandths_number (score two_to_one.heap 100 none x)) first_choice

abbrev at_zero : ℕ → Candidate ℤ
at_zero idx = record { idx = idx; score = pos 0 }

both : candidates 100 none two_to_one ≡ at_zero 0 ∷ at_zero 1 ∷ []
unfolding candidates collect visit candidate_score backend_score avg_latency_ms sort_stable insert
    less ◌==ₛ◌ ◌+ℤ◌ ◌-ℤ◌
both = refl

next_for-rota_example :
    let round = rota (turns 100 none two_to_one (at_zero 0 ∷ at_zero 1 ∷ [])) in
    (i : ℕ) × (get_elem? round ((0 + 4) % length round) ≡ some i)
    × ((next_for 100 none (after_choices 100 none 4 two_to_one)).1
        ≡ address_at two_to_one.backends i)
next_for-rota_example =
    next_for-rota 100 none thousandths-IsOrdered two_to_one (at_zero 0) (at_zero 1 ∷ []) 4 steady
      both
