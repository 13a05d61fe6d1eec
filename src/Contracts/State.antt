-- ===== src/Contracts/State.antt =====
-- The enumerations of a task session (backend/app/contracts/models.py).
use web_accessible.Prelude.{Comparable, eq_of_discrete, Text, codes}

pub data SessionMode : Type 0 where
  observe caregiver_record cold_teach replay : SessionMode

pub data SessionState : Type 0 where
  created observing help_offered guiding awaiting_user_action verifying rerouting repairing :
      SessionState
  safety_paused completed prepared escalated abandoned failed provider_unavailable : SessionState

pub data GuidanceMode : Type 0 where
  none cold replay repair : GuidanceMode

pub data SyncState : Type 0 where
  pending synced failed : SyncState

unfoldable pub SessionState-discrete : Discrete SessionState
SessionState-discrete = hlevel

instance abbrev pub state_eq : Comparable SessionState
state_eq = eq_of_discrete SessionState-discrete

unfoldable pub SessionMode-discrete : Discrete SessionMode
SessionMode-discrete = hlevel

instance abbrev pub mode_eq : Comparable SessionMode
mode_eq = eq_of_discrete SessionMode-discrete

unfoldable pub GuidanceMode-discrete : Discrete GuidanceMode
GuidanceMode-discrete = hlevel

instance abbrev pub guidance_mode_eq : Comparable GuidanceMode
guidance_mode_eq = eq_of_discrete GuidanceMode-discrete

-- The values of `SessionMode`.
unfoldable pub mode_value : SessionMode → Text
mode_value SessionMode.observe = codes "observe"
mode_value SessionMode.caregiver_record = codes "caregiver_record"
mode_value SessionMode.cold_teach = codes "cold_teach"
mode_value SessionMode.replay = codes "replay"

-- The values of `GuidanceMode`.
unfoldable pub guidance_mode_value : GuidanceMode → Text
guidance_mode_value GuidanceMode.none = codes "none"
guidance_mode_value GuidanceMode.cold = codes "cold"
guidance_mode_value GuidanceMode.replay = codes "replay"
guidance_mode_value GuidanceMode.repair = codes "repair"
