-- ===== src/Channel.antt =====
-- internal/channel: the upstream channels of the gateway (channel.go), and the router that selects
-- one of them (router.go, in the modules below). The type of a channel is a text, as in the code.
-- Identities, priorities and ratios carry no negative value.
pub mod Router
pub mod Weights
pub mod Eligible
pub mod Select
pub mod Health
pub mod Tests
use nexus_ai_gateway.Common.{
  ℕ, ◌*◌, Bool, true, false, not, ◌&&◌, ◌||◌, Option, none, some, List, [], ◌∷◌, String, str_eq,
  if◌then◌else◌,
}

-- The fields that the router reads, and those that `Validate` and `GetEffectiveURL` read.
pub record Channel : Type 0 where
  pub id : ℕ
  pub name : String
  pub type : String
  pub base_url : String
  pub api_key_encrypted : String
  pub models : List String
  pub priority : ℕ
  pub ratio : ℕ

-- The errors of the package; `repo_error` is one that the repository returned.
pub data ChannelError : Type 0 where
  name_required type_required api_key_required not_found inactive : ChannelError
  repo_error : String → ChannelError

-- The loop of `IsModelSupported`.
lists_model : String → List String → Bool
lists_model model [] = false
lists_model model (m ∷ ms) = str_eq m model || str_eq m "*" || lists_model model ms

unfoldable pub is_model_supported : String → Channel → Bool
unfolding lists_model
is_model_supported model c = elim c.models [ [] ↦ true | _ ↦ lists_model model c.models ]

default_url : String → String
default_url type =
    if str_eq type "openai"
    then "https://api.openai.com/v1"
    else if str_eq type "anthropic"
    then "https://api.anthropic.com/v1"
    else if str_eq type "google"
    then "https://generativelanguage.googleapis.com/v1"
    else if str_eq type "azure"
    then ""
    else if str_eq type "cohere"
    then "https://api.cohere.ai/v1"
    else if str_eq type "mistral"
    then "https://api.mistral.ai/v1"
    else if str_eq type "ollama"
    then "http://localhost:11434/v1"
    else ""

unfoldable pub get_effective_url : Channel → String
unfolding default_url
get_effective_url c = if str_eq c.base_url "" then default_url c.type else c.base_url

-- `none` is the nil error.
unfoldable pub validate : Channel → Option ChannelError
validate c =
    if str_eq c.name ""
    then some name_required
    else if str_eq c.type ""
    then some type_required
    else if str_eq c.api_key_encrypted "" && not (str_eq c.type "ollama")
    then some api_key_required
    else none
