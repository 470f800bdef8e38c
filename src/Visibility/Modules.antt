-- ===== src/Visibility/Modules.antt =====
-- Who may read a record of each module with protected records: people, meetings, learning,
-- community, assistant, assurance and live.
use managed_oss_cloud.Common.{
  String, Bool, false, not, ◌&&◌, ◌||◌, List, [], ◌∷◌, Option, none, some, one_of, ends_with, keep,
  str_eq, if◌then◌else◌,
}
use managed_oss_cloud.Visibility.Values.{
  Value, Fields, field_of, is_text, text_of, Access, allowed, denied, type_error, allow_if,
}
use managed_oss_cloud.Visibility.Policies.{
  IdentityPolicy, policy, PolicyEntry, missing, inherited, own, policy_for, has_exact_identity,
  identity_access, people_identity_policies, meeting_identity_policies, learning_identity_policies,
  community_identity_policies,
}

pub record SuiteRecordVisibilityTarget : Type 0 where
  pub workspace_id : String
  pub module_id : String
  pub record_type : String
  pub state : String
  pub content : Value

abbrev pub is_internal_record : String → Bool
is_internal_record record_type =
    str_eq record_type "audit"
    || ends_with record_type "-audit"
    || ends_with record_type "-command-receipt"

-- `String(value)`, which may throw, and what follows
abbrev pub with_text : Option String → (String → Access) → Access
with_text none next = type_error
with_text (some s) next = next s

-- A guard `if (!accepted && !set.has(String(value))) return false`
abbrev pub unless_one_of : Bool → List String → Option Value → Access → Access
unless_one_of accepted names value next =
    if accepted
    then next
    else with_text (text_of value) (λ s. if one_of names s then next else denied)

abbrev pub without_manager : IdentityPolicy → IdentityPolicy
without_manager p = record p { fields = keep (λ name. not (str_eq name "managerRef")) p.fields }

abbrev pub people_access : String → Fields → PolicyEntry → Access
people_access user_id content missing = denied
people_access user_id content inherited = type_error
people_access user_id content (own p) =
    if has_exact_identity content user_id (without_manager p)
    then allowed
    else allow_if (
        is_text (field_of content "profilePrivacy") "manager-and-person"
        && is_text (field_of content "managerRef") user_id)

unfoldable pub can_read_people_record : String → SuiteRecordVisibilityTarget → Fields → Access
can_read_people_record user_id r content =
    if str_eq r.record_type "people-policy"
    then allow_if (str_eq r.state "published")
    else if str_eq r.record_type "ai-proposal-request" || is_internal_record r.record_type
    then denied
    else if str_eq r.record_type "people-profile"
    then (if is_text (field_of content "employeeRef") user_id
        then allowed
        else allow_if (
            is_text (field_of content "privacy") "manager-and-person"
            && is_text (field_of content "managerRef") user_id))
    else people_access user_id content (policy_for people_identity_policies r.record_type)

abbrev pub protected_meeting_privacy : List String
protected_meeting_privacy = "confidential" ∷ "restricted" ∷ []

abbrev pub meeting_access : String → SuiteRecordVisibilityTarget → Fields → PolicyEntry → Access
meeting_access user_id r content missing = denied
meeting_access user_id r content entry =
    if str_eq r.record_type "ai-proposal-request"
    then identity_access content user_id entry
    else if is_text (field_of content "meetingPrivacy") "workspace"
    then allowed
    else identity_access content user_id entry

unfoldable pub meeting_child_access : String → SuiteRecordVisibilityTarget → Fields → Access
meeting_child_access user_id r content =
    if str_eq r.record_type "meeting-export"
    then allow_if (
        has_exact_identity content user_id
          (policy ("meetingCreatedBy" ∷ "exportedBy" ∷ "createdBy" ∷ []) []))
    else meeting_access user_id r content (policy_for meeting_identity_policies r.record_type)

unfoldable pub can_read_meeting_record : String → SuiteRecordVisibilityTarget → Fields → Access
unfolding meeting_child_access
can_read_meeting_record user_id r content =
    if is_internal_record r.record_type
    then denied
    else if str_eq r.record_type "meeting"
    then (if is_text (field_of content "privacy") "workspace"
        then allowed
        else unless_one_of false protected_meeting_privacy (field_of content "privacy") (
            allow_if (
              has_exact_identity content user_id
                (policy ("createdBy" ∷ []) ("participantUserRefs" ∷ [])))))
    else unless_one_of (is_text (field_of content "meetingPrivacy") "workspace")
        protected_meeting_privacy (field_of content "meetingPrivacy")
        (meeting_child_access user_id r content)

abbrev pub shared_learning_visibility : List String
shared_learning_visibility = "workspace" ∷ "public-catalog" ∷ []

abbrev pub shared_learning_record_types : List String
shared_learning_record_types = "learning-lesson" ∷ "learning-rubric" ∷ []

-- `set.has(String(value))`, then one of two continuations
abbrev pub if_text_in : List String → Option Value → Access → Access → Access
if_text_in names value hit miss =
    with_text (text_of value) (λ s. if one_of names s then hit else miss)

abbrev pub learning_access : String → SuiteRecordVisibilityTarget → Fields → PolicyEntry → Access
learning_access user_id r content missing = denied
learning_access user_id r content entry =
    if one_of shared_learning_record_types r.record_type
    then if_text_in shared_learning_visibility (field_of content "courseVisibility") allowed
        (identity_access content user_id entry)
    else identity_access content user_id entry

unfoldable pub can_read_learning_record : String → SuiteRecordVisibilityTarget → Fields → Access
can_read_learning_record user_id r content =
    if is_internal_record r.record_type
    then denied
    else if str_eq r.record_type "learning-course"
    then if_text_in shared_learning_visibility (field_of content "visibility") allowed (
        if is_text (field_of content "visibility") "private"
        then allow_if
            (has_exact_identity content user_id (policy ("createdBy" ∷ []) ("learnerRefs" ∷ [])))
        else denied)
    else unless_one_of (is_text (field_of content "courseVisibility") "private")
        shared_learning_visibility (field_of content "courseVisibility")
        (learning_access user_id r content (policy_for learning_identity_policies r.record_type))

abbrev pub shared_community_visibility : List String
shared_community_visibility = "workspace" ∷ "public" ∷ []

unfoldable pub is_shareable_community_state : SuiteRecordVisibilityTarget → Bool
is_shareable_community_state r =
    if str_eq r.record_type "community-member"
    then str_eq r.state "active"
    else if str_eq r.record_type "community-post" || str_eq r.record_type "community-reply"
    then str_eq r.state "visible"
    else if str_eq r.record_type "community-reaction"
    then str_eq r.state "active"
    else if str_eq r.record_type "community-announcement"
    then str_eq r.state "published"
    else false

-- the policy's `fields` alone
abbrev pub without_arrays : PolicyEntry → PolicyEntry
without_arrays missing = missing
without_arrays inherited = inherited
without_arrays (own p) = own (policy p.fields [])

abbrev pub community_access : String → SuiteRecordVisibilityTarget → Fields → PolicyEntry → Access
community_access user_id r content missing = denied
community_access user_id r content entry =
    let own_access = identity_access content user_id entry in
    let narrow_access = identity_access content user_id (without_arrays entry) in
    let by_state = if is_shareable_community_state r then own_access else narrow_access in
    if str_eq r.record_type "ai-proposal-request"
    then own_access
    else if_text_in shared_community_visibility (field_of content "spaceVisibility")
        (if is_shareable_community_state r then allowed else by_state) by_state

unfoldable pub can_read_community_record : String → SuiteRecordVisibilityTarget → Fields → Access
can_read_community_record user_id r content =
    if is_internal_record r.record_type
    then denied
    else if str_eq r.record_type "community-space"
    then if_text_in shared_community_visibility (field_of content "visibility") allowed (
        if is_text (field_of content "visibility") "private"
        then allow_if
            (has_exact_identity content user_id (policy ("createdBy" ∷ []) ("memberRefs" ∷ [])))
        else denied)
    else unless_one_of (is_text (field_of content "spaceVisibility") "private")
        shared_community_visibility (field_of content "spaceVisibility")
        (community_access user_id r content (policy_for community_identity_policies r.record_type))

unfoldable pub can_read_assistant_record : String → Fields → Access
can_read_assistant_record user_id content = allow_if (
    has_exact_identity content user_id (
      policy
        ("createdByUserId" ∷ "requestedByUserId" ∷ "approvedByUserId" ∷ "reviewedByUserId" ∷ [])
        []))
