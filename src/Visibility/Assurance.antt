-- ===== src/Visibility/Assurance.antt =====
-- Who may read a record of the assurance and live modules.
use managed_oss_cloud.Common.{
  String, Bool, true, false, not, ◌&&◌, ◌||◌, List, [], ◌∷◌, Option, none, some, one_of, str_eq,
  if◌then◌else◌,
}
use managed_oss_cloud.Visibility.Values.{
  Value, Fields, flag, field_of, is_text, Access, allowed, denied, allow_if,
}
use managed_oss_cloud.Visibility.Policies.{IdentityPolicy, policy, has_exact_identity}
use managed_oss_cloud.Visibility.Modules.{
  SuiteRecordVisibilityTarget, is_internal_record, unless_one_of, if_text_in,
}

abbrev pub assurance_identity_policy : IdentityPolicy
assurance_identity_policy =
    policy
      ("programOwnerRef" ∷ "subjectOwnerRef" ∷ "ownerRef" ∷ "controlOwnerRef" ∷ "evidenceOwnerRef"
        ∷ "remediationOwnerRef" ∷ "createdByUserId" ∷ "attachedByUserId" ∷ "testerRef"
        ∷ "approvedBy" ∷ "requestedByUserId" ∷ [])
      ("subjectOwnerRefs" ∷ [])

-- `value === true`
abbrev pub is_true : Option Value → Bool
is_true (some (flag b)) = b
is_true _ = false

abbrev pub is_absent : Option Value → Bool
is_absent none = true
is_absent (some v) = false

unfoldable pub can_read_assurance_record : String → SuiteRecordVisibilityTarget → Fields → Access
can_read_assurance_record user_id r content =
    let classification = field_of content "assuranceClassification" in
    let by_identity = allow_if (has_exact_identity content user_id assurance_identity_policy) in
    if is_internal_record r.record_type
    then denied
    else if str_eq r.record_type "audit-pack"
        || is_true (field_of content "private")
        || str_eq r.state "ready-private"
    then by_identity
    else if_text_in ("public" ∷ "internal" ∷ []) classification allowed (
        unless_one_of (is_absent classification) ("confidential" ∷ "restricted" ∷ []) classification
          by_identity)

unfoldable pub live_identity_policy : String → Option IdentityPolicy
live_identity_policy record_type =
    if str_eq record_type "attendee-access"
    then some (policy ("attendeeRef" ∷ []) [])
    else if str_eq record_type "presenter-grant"
    then some (policy ("presenterRef" ∷ []) [])
    else if str_eq record_type "media-consent-receipt"
    then some (policy ("participantRef" ∷ []) [])
    else if str_eq record_type "live-prompt-response"
    then some (policy ("attendeeRef" ∷ []) [])
    else if str_eq record_type "chat-moderation-receipt"
    then some (policy ("messageSenderRef" ∷ "approvedBy" ∷ []) [])
    else none

abbrev pub shared_live_visibility : List String
shared_live_visibility = "workspace" ∷ "invited-public" ∷ []

abbrev pub live_session_shared_record_types : List String
live_session_shared_record_types =
    "broadcast-receipt" ∷ "broadcast-update" ∷ "live-chat-message" ∷ "live-prompt" ∷ []

-- after the check of the session's visibility
abbrev pub live_access :
    String → SuiteRecordVisibilityTarget → Fields → Option Value → Option IdentityPolicy → Access
live_access user_id r content visibility (some narrow) =
    allow_if (has_exact_identity content user_id narrow)
live_access user_id r content visibility none =
    if not
      (str_eq r.record_type "live-session" || one_of live_session_shared_record_types r.record_type)
    then denied
    else if str_eq r.record_type "live-chat-message" && not (str_eq r.state "visible")
    then allow_if
        (has_exact_identity content user_id (policy ("senderRef" ∷ "sessionCreatedBy" ∷ []) []))
    else if_text_in shared_live_visibility visibility allowed (
        allow_if (
          has_exact_identity content user_id
            (policy ("sessionCreatedBy" ∷ "senderRef" ∷ []) ("sessionParticipantRefs" ∷ []))))

abbrev pub session_visibility : SuiteRecordVisibilityTarget → Fields → Option Value
session_visibility r content =
    if str_eq r.record_type "live-session"
    then field_of content "visibility"
    else field_of content "sessionVisibility"

unfoldable pub can_read_live_record : String → SuiteRecordVisibilityTarget → Fields → Access
unfolding live_identity_policy
can_read_live_record user_id r content =
    let visibility = session_visibility r content in
    if is_internal_record r.record_type
    then denied
    else unless_one_of (is_text visibility "private") shared_live_visibility visibility
        (live_access user_id r content visibility (live_identity_policy r.record_type))
