-- ===== src/Visibility.antt =====
-- server/suite-record-visibility.ts: the record-level tenant policy. The data of a record is a
-- `Value`; a check may also throw, where the source would (`type_error`).
pub mod Values
pub mod Policies
pub mod Modules
pub mod Assurance
pub mod Denials
pub mod Grants
pub mod Reasons
pub mod Envelope
pub mod Inherited
mod Tests
use managed_oss_cloud.Common.{
  String, Bool, true, false, not, ◌&&◌, ◌||◌, List, [], ◌∷◌, Option, none, some, one_of, ends_with,
  has_ink, str_eq, if◌then◌else◌,
}
use managed_oss_cloud.Visibility.Values.{
  Value, Fields, null, flag, number, text, arr, obj, field_of, is_text, Access, allowed, denied,
  allow_if,
}
use managed_oss_cloud.Visibility.Policies.{policy, has_exact_identity}
use managed_oss_cloud.Visibility.Modules.{
  SuiteRecordVisibilityTarget, can_read_people_record, can_read_meeting_record,
  can_read_learning_record, can_read_community_record, can_read_assistant_record,
}
use managed_oss_cloud.Visibility.Assurance.{can_read_assurance_record, can_read_live_record}

pub data SuiteWorkspaceRole : Type 0 where
  owner admin member viewer : SuiteWorkspaceRole

pub record SuiteRecordReadPrincipal : Type 0 where
  pub user_id : String
  pub workspace_id : String
  pub role : SuiteWorkspaceRole

abbrev pub is_privileged : SuiteWorkspaceRole → Bool
is_privileged owner = true
is_privileged admin = true
is_privileged _ = false

abbrev pub protected_module_ids : List String
protected_module_ids =
    "people" ∷ "meetings" ∷ "learning" ∷ "community" ∷ "assistant" ∷ "assurance" ∷ "live" ∷ []

-- `isRecordData`: an object that is no array
abbrev record_data : Option Value → Option Fields
record_data (some (obj fields)) = some fields
record_data _ = none

-- The validated envelope of an additive record: it repeats the record's identity.
abbrev envelope_matches : SuiteRecordVisibilityTarget → Fields → Bool
envelope_matches r stored =
    is_text (field_of stored "workspaceId") r.workspace_id
    && is_text (field_of stored "moduleId") r.module_id
    && is_text (field_of stored "recordType") r.record_type
    && is_text (field_of stored "state") r.state

envelope_data : SuiteRecordVisibilityTarget → Option Fields → Option Fields
envelope_data r none = none
envelope_data r (some stored) =
    if envelope_matches r stored then record_data (field_of stored "data") else none

additive_data : SuiteRecordVisibilityTarget → Option Fields → Option Fields
additive_data r none = none
additive_data r (some content) =
    if is_text (field_of content "additiveContract") "additive-business-record.v1"
    then envelope_data r (record_data (field_of content "record"))
    else some content

unfoldable pub authorization_data : SuiteRecordVisibilityTarget → Option Fields
unfolding additive_data envelope_data
authorization_data r = additive_data r (record_data (some r.content))

abbrev pub is_globally_private_ai_record : String → Bool
is_globally_private_ai_record record_type =
    one_of
      ("ai-proposal-request" ∷ "ai-request-audit" ∷ "premium-ai-request-audit" ∷ "ai-result" ∷ [])
      record_type
    || ends_with record_type "-ai-request-audit"

unfoldable pub can_read_private_ai_record : String → Fields → Access
can_read_private_ai_record user_id content = allow_if (
    has_exact_identity content user_id (
      policy
        ("requestedByUserId" ∷ "requestedBy" ∷ "queuedBy" ∷ "reviewedByUserId" ∷ "reviewedBy" ∷ [])
        []))

pub suite_module_has_protected_records : String → Bool
suite_module_has_protected_records module_id = one_of protected_module_ids module_id

-- the module's own policy, after the checks that all modules share
unfoldable pub module_access : String → SuiteRecordVisibilityTarget → Fields → Access
module_access user_id r content =
    if is_globally_private_ai_record r.record_type
    then can_read_private_ai_record user_id content
    else if not (one_of protected_module_ids r.module_id)
    then allowed
    else if str_eq r.module_id "people"
    then can_read_people_record user_id r content
    else if str_eq r.module_id "meetings"
    then can_read_meeting_record user_id r content
    else if str_eq r.module_id "learning"
    then can_read_learning_record user_id r content
    else if str_eq r.module_id "assistant"
    then can_read_assistant_record user_id content
    else if str_eq r.module_id "community"
    then can_read_community_record user_id r content
    else if str_eq r.module_id "assurance"
    then can_read_assurance_record user_id r content
    else can_read_live_record user_id r content

abbrev data_access : String → SuiteRecordVisibilityTarget → Option Fields → Access
data_access user_id r none = denied
data_access user_id r (some content) = module_access user_id r content

unfoldable pub can_read_suite_record :
    SuiteRecordReadPrincipal → SuiteRecordVisibilityTarget → Access
can_read_suite_record principal r =
    if not (has_ink principal.user_id)
      || not (has_ink principal.workspace_id)
      || not (str_eq r.workspace_id principal.workspace_id)
    then denied
    else if is_privileged principal.role
    then allowed
    else data_access principal.user_id r (authorization_data r)
