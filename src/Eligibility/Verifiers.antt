-- ===== src/Eligibility/Verifiers.antt =====
-- pkg/eligibility/factory.go, membership.go and stake_stub.go: the verifier of members of a
-- configuration, and the configurations that are built in.
use aicw_node.Base.{
  ◌||◌, Option, none, some, List, [], if◌then◌else◌, Str, text, str_eq, Result, ok, err,
}
use aicw_node.Consul.{Codec}
use aicw_node.Eligibility.Membership.{
  Outside, Whitelist, MembershipEntry, PeerInfo, RefreshError, MemberError, not_implemented,
  default_prefix, refresh, new_whitelist_membership_verifier, verify_membership,
}
use aicw_node.Eligibility.Initiators.{InitiatorConfig}

-- MembershipVerifier and its implementations.
pub data MemberVerifying : Type 0 where
  members_listed : Whitelist → MemberVerifying
  members_staked : MemberVerifying

pub record MembershipConfig : Type 0 where
  pub mode : Str
  pub whitelist_source : Str
  pub whitelist_path : Str

pub data MemberConfigError : Type 0 where
  unknown_member_mode : MemberConfigError
  members_not_read : RefreshError → MemberConfigError

-- The answer of Refresh, of the stub too.
pub data RefreshAnswer : Type 0 where
  refreshed refresh_not_implemented : RefreshAnswer
  not_refreshed : RefreshError → RefreshAnswer

refreshed_as : Option RefreshError × Whitelist → RefreshAnswer × MemberVerifying
refreshed_as (none, w) = (refreshed, members_listed w)
refreshed_as (some e, w) = (not_refreshed e, members_listed w)

verified_as :
    Result MemberError (Unit {0}) × Whitelist → Result MemberError (Unit {0}) × MemberVerifying
verified_as (r, w) = (r, members_listed w)

members_of : Result RefreshError Whitelist → Result MemberConfigError MemberVerifying
members_of (ok w) = ok (members_listed w)
members_of (err e) = err (members_not_read e)

module _ (json : Codec MembershipEntry) (json_list : Codec (List PeerInfo)) where
  unfoldable pub verify_member :
      Outside → Str → Str → MemberVerifying → Result MemberError (Unit {0}) × MemberVerifying
  unfolding verified_as
  verify_member out id key (members_listed w) =
      verified_as (verify_membership json json_list out id key w)
  verify_member out id key members_staked = (err not_implemented, members_staked)

  unfoldable pub refresh_members : Outside → MemberVerifying → RefreshAnswer × MemberVerifying
  unfolding refreshed_as
  refresh_members out (members_listed w) = refreshed_as (refresh json json_list out w)
  refresh_members out members_staked = (refresh_not_implemented, members_staked)

  unfoldable pub new_membership_verifier :
      MembershipConfig → Outside → Result MemberConfigError MemberVerifying
  unfolding members_of
  new_membership_verifier cfg out =
      if str_eq cfg.mode (text "whitelist") || str_eq cfg.mode []
      then members_of (
          new_whitelist_membership_verifier json json_list cfg.whitelist_source
            (if str_eq cfg.whitelist_path [] then default_prefix else cfg.whitelist_path) out)
      else if str_eq cfg.mode (text "stake")
      then ok members_staked
      else err unknown_member_mode

unfoldable pub create_default_initiator_config : Str → Str → InitiatorConfig
create_default_initiator_config pub_key algorithm = record {
  mode = text "legacy";
  legacy_pub_key = pub_key;
  legacy_algorithm_name = algorithm;
  whitelist_source = [];
  whitelist_path = [];
}

unfoldable pub create_whitelist_initiator_config : Str → Str → InitiatorConfig
create_whitelist_initiator_config source path = record {
  mode = text "whitelist";
  legacy_pub_key = [];
  legacy_algorithm_name = [];
  whitelist_source = source;
  whitelist_path = path;
}

unfoldable pub create_whitelist_membership_config : Str → Str → MembershipConfig
create_whitelist_membership_config source path = record {
  mode = text "whitelist";
  whitelist_source = source;
  whitelist_path = path;
}
