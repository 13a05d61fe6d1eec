-- ===== src/Contracts/Command.antt =====
-- The commands that the backend sends to the page (backend/app/contracts/models.py).
use web_accessible.Prelude.{ℕ, Text, Option}
use web_accessible.Contracts.Element.{SelectorBundle, VerificationPredicate, SafetyPresentation}

pub data CommandType : Type 0 where
  none offer_help present_guidance verifying safety_pause escalated completed prepared : CommandType
  provider_unavailable : CommandType

pub record TargetCommand : Type 0 where
  pub candidate_id : Text
  pub selectors : SelectorBundle

pub record BackendCommand : Type 0 where
  pub command_id : ℕ
  pub session_id : ℕ
  pub server_state_version : ℕ
  pub command_type : CommandType
  pub page_instance_id : Option ℕ
  pub instruction : Option Text
  pub target : Option TargetCommand
  pub expected_transition : Option VerificationPredicate
  pub safety : Option SafetyPresentation
