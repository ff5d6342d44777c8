-- ===== src/Config.antt =====
-- src/config.rs: the policies that steer a substitution, and the fields of the configuration that
-- the modelled parts read.
use guix_p2p.Prelude.{
  ◌≡◌, refl, text_eq, ℕ, Bool, true, false, Option, none, some, List, if◌then◌else◌, nat_eq,
  text_beq, text_eq,
}
use guix_p2p.Crypto.{Text}
use guix_p2p.Text.{chars}

pub data SubstitutePolicy : Type 0 where
  p2p_only p2p_first http_first : SubstitutePolicy

unfoldable pub display : SubstitutePolicy → Text
display p2p_only = chars "p2p-only"
display p2p_first = chars "p2p-first"
display http_first = chars "http-first"

unfoldable pub from_str : Text → Option SubstitutePolicy
from_str s =
    if text_beq s (chars "p2p-only")
    then some p2p_only
    else if text_beq s (chars "p2p-first")
    then some p2p_first
    else if text_beq s (chars "http-first")
    then some http_first
    else none

pub data AutoSeedDownloads : Type 0 where
  off p2p all_sources : AutoSeedDownloads

unfoldable pub should_seed_p2p : AutoSeedDownloads → Bool
should_seed_p2p off = false
should_seed_p2p p2p = true
should_seed_p2p all_sources = true

unfoldable pub should_seed_http : AutoSeedDownloads → Bool
should_seed_http off = false
should_seed_http p2p = false
should_seed_http all_sources = true

-- A missing field is `none`; a number field has its default.
pub record Config : Type 0 where
  pub bootstrap_peers : List Text
  pub substitute_urls : List Text
  pub substitute_policy : SubstitutePolicy
  pub request_timeout_secs : ℕ
  pub max_peers_per_download : ℕ
  pub min_providers : ℕ
  pub auto_seed_downloads : AutoSeedDownloads
  pub local_narinfo_path : Option Text
  pub block_size : ℕ
  pub stall_timeout_secs : ℕ
  pub max_in_flight_blocks_per_peer : ℕ
  pub health_check_interval_secs : ℕ

-- A substitute policy is read back from the text that displays it.
from_str-display : (policy : SubstitutePolicy) → from_str (display policy) ≡ some policy
unfolding from_str display
from_str-display p2p_only = refl
from_str-display p2p_first = refl
from_str-display http_first = refl
