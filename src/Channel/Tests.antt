-- ===== src/Channel/Tests.antt =====
-- The router on concrete channels: runs of the code, and the theorems at inputs that meet their
-- hypotheses.
use nexus_ai_gateway.Common.{ℕ, ◌≡◌, refl, [], ◌∷◌, some, none}
use nexus_ai_gateway.Common.Clock.{second}
use nexus_ai_gateway.Channel.{Channel, ChannelError, api_key_required, validate, get_effective_url}
use nexus_ai_gateway.Channel.Router.{
  Breaker, Inputs, selected, refused, listed, new_breaker, try_channel, filter_eligible,
  total_weight, weighted_random_select, select_channel, record_failure, select_with_failover,
}
use nexus_ai_gateway.Channel.Weights.{sample, weighted_shares}
use nexus_ai_gateway.Channel.Eligible.{IsEligible}
use nexus_ai_gateway.Channel.Select.{Among, select_channel-IsEligible, select_with_failover_fails}
use nexus_ai_gateway.Channel.Health.{run, step, failing}

abbrev main : Channel
main = record {
  id = 1;
  name = "main";
  type = "openai";
  base_url = "";
  api_key_encrypted = "k";
  models = "gpt-4o" ∷ [];
  priority = 2;
  ratio = 1;
}

abbrev spare : Channel
spare = record main { id = 2; name = "spare"; models = []; priority = 1 }

main_is_valid : validate main ≡ none
unfolding validate
main_is_valid = refl

keyless_is_refused : validate (record main { api_key_encrypted = "" }) ≡ some api_key_required
unfolding validate
keyless_is_refused = refl

main_url : get_effective_url main ≡ "https://api.openai.com/v1"
unfolding get_effective_url
main_url = refl

second_draw : weighted_random_select (λ _. 2) main (spare ∷ []) ≡ spare
unfolding weighted_random_select
second_draw = refl

weighted_shares_example :
    sample
      (λ r. weighted_random_select (λ _. r) main (spare ∷ []))
      0
      (total_weight (main ∷ spare ∷ []))
    ≡ main ∷ main ∷ spare ∷ []
weighted_shares_example = weighted_shares main (spare ∷ [])

-- Five failures of channel 1.
abbrev broken : Breaker
broken = record new_breaker {
  states = (run (failing 1 (1 ∷ 2 ∷ 3 ∷ 4 ∷ 5 ∷ [])) new_breaker).states;
  last_failure = (run (failing 1 (1 ∷ 2 ∷ 3 ∷ 4 ∷ 5 ∷ [])) new_breaker).last_failure;
}

avoids_broken :
    (select_channel second (λ _. 0) "gpt-4o" (listed (main ∷ spare ∷ [])) broken).1 ≡ selected spare
unfolding select_channel filter_eligible try_channel weighted_random_select run step record_failure
    new_breaker
avoids_broken = refl

select_channel-IsEligible_example :
    Among spare (main ∷ spare ∷ [])
    × IsEligible second "gpt-4o" broken
        (select_channel second (λ _. 0) "gpt-4o" (listed (main ∷ spare ∷ [])) broken).0
        spare
select_channel-IsEligible_example =
    select_channel-IsEligible second (λ _. 0) "gpt-4o" (main ∷ spare ∷ []) broken spare
      avoids_broken

abbrev healthy : ℕ → Inputs
healthy _ = record { now = second; draw = λ _. 0; listing = listed (main ∷ []) }

select_with_failover_fails_example :
    (e : ChannelError) × ((select_with_failover "gpt-4o" 3 healthy new_breaker).1 ≡ refused e)
select_with_failover_fails_example = select_with_failover_fails "gpt-4o" 3 healthy new_breaker
