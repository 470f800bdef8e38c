-- ===== src/Visibility/Policies.antt =====
-- The identity policies: which fields of a record name the users who may read it.
use managed_oss_cloud.Common.{
  String, Bool, true, false, ◌||◌, List, [], ◌∷◌, Option, none, some, any, one_of,
}
use managed_oss_cloud.Common.Dict.{Dict, get}
use managed_oss_cloud.Visibility.Values.{
  Fields, field_of, is_text, array_includes, Access, denied, type_error, allow_if,
}

-- An absent `arrayFields` is read as the empty list.
pub record IdentityPolicy : Type 0 where
  pub fields : List String
  pub array_fields : List String

abbrev pub policy : List String → List String → IdentityPolicy
policy fields array_fields = record { fields = fields; array_fields = array_fields }

abbrev pub people_identity_policies : Dict IdentityPolicy
people_identity_policies =
    ("people-profile", policy ("employeeRef" ∷ "managerRef" ∷ []) [])
    ∷ ("onboarding", policy ("subjectUserId" ∷ "managerRef" ∷ "ownerRef" ∷ []) [])
    ∷ ("policy-acknowledgement", policy ("subjectUserId" ∷ "managerRef" ∷ []) [])
    ∷ ("leave-request", policy ("subjectUserId" ∷ "managerRef" ∷ []) [])
    ∷ ("leave-decision", policy ("subjectUserId" ∷ "managerRef" ∷ "decidedBy" ∷ []) [])
    ∷ ("attendance", policy ("subjectUserId" ∷ "managerRef" ∷ []) [])
    ∷ ("attendance-correction", policy ("subjectUserId" ∷ "managerRef" ∷ "approvedBy" ∷ []) [])
    ∷ ("people-review", policy ("subjectUserId" ∷ "managerRef" ∷ "reviewerRef" ∷ []) [])
    ∷ (
      "review-submission",
      policy ("subjectUserId" ∷ "managerRef" ∷ "reviewerRef" ∷ "submittedBy" ∷ []) [],
    )
    ∷ ("access-revocation-receipt", policy ("subjectUserId" ∷ "verifiedBy" ∷ []) [])
    ∷ ("offboarding-receipt", policy ("subjectUserId" ∷ "managerRef" ∷ []) [])
    ∷ []

abbrev pub meeting_identity_policies : Dict IdentityPolicy
meeting_identity_policies =
    (
      "meeting-participant",
      policy ("meetingCreatedBy" ∷ "userRef" ∷ []) ("meetingParticipantUserRefs" ∷ []),
    )
    ∷ (
      "transcript-segment",
      policy ("meetingCreatedBy" ∷ "speakerRef" ∷ "recordedBy" ∷ [])
          ("meetingParticipantUserRefs" ∷ []),
    )
    ∷ (
      "meeting-decision",
      policy ("meetingCreatedBy" ∷ "ownerRef" ∷ "recordedBy" ∷ [])
          ("meetingParticipantUserRefs" ∷ []),
    )
    ∷ (
      "meeting-action-item",
      policy ("meetingCreatedBy" ∷ "ownerRef" ∷ "createdBy" ∷ [])
          ("meetingParticipantUserRefs" ∷ []),
    )
    ∷ ("ai-proposal-request", policy ("meetingCreatedBy" ∷ "queuedBy" ∷ []) [])
    ∷ []

abbrev pub learning_identity_policies : Dict IdentityPolicy
learning_identity_policies =
    ("learning-lesson", policy ("courseCreatedBy" ∷ "createdBy" ∷ []) ("courseLearnerRefs" ∷ []))
    ∷ ("learning-rubric", policy ("courseCreatedBy" ∷ "createdBy" ∷ []) ("courseLearnerRefs" ∷ []))
    ∷ ("learning-enrollment", policy ("courseCreatedBy" ∷ "learnerRef" ∷ "enrolledBy" ∷ []) [])
    ∷ ("learning-attempt", policy ("courseCreatedBy" ∷ "learnerRef" ∷ "recordedBy" ∷ []) [])
    ∷ ("learning-credential", policy ("courseCreatedBy" ∷ "learnerRef" ∷ "issuedBy" ∷ []) [])
    ∷ ("ai-proposal-request", policy ("courseCreatedBy" ∷ "learnerRef" ∷ "queuedBy" ∷ []) [])
    ∷ []

abbrev pub community_identity_policies : Dict IdentityPolicy
community_identity_policies =
    (
      "community-member",
      policy ("spaceCreatedBy" ∷ "memberRef" ∷ "addedBy" ∷ []) ("spaceMemberRefs" ∷ []),
    )
    ∷ ("community-post", policy ("spaceCreatedBy" ∷ "authorRef" ∷ []) ("spaceMemberRefs" ∷ []))
    ∷ ("community-reply", policy ("spaceCreatedBy" ∷ "authorRef" ∷ []) ("spaceMemberRefs" ∷ []))
    ∷ ("community-reaction", policy ("spaceCreatedBy" ∷ "memberRef" ∷ []) ("spaceMemberRefs" ∷ []))
    ∷ (
      "community-announcement",
      policy ("spaceCreatedBy" ∷ "publishedBy" ∷ []) ("spaceMemberRefs" ∷ []),
    )
    ∷ ("ai-proposal-request", policy ("spaceCreatedBy" ∷ "queuedBy" ∷ []) [])
    ∷ []

-- The names that every plain object inherits, so that a policy table finds a value under them.
abbrev pub object_prototype : List String
object_prototype =
    "constructor" ∷ "__defineGetter__" ∷ "__defineSetter__" ∷ "hasOwnProperty" ∷ "__lookupGetter__"
    ∷ "__lookupSetter__" ∷ "isPrototypeOf" ∷ "propertyIsEnumerable" ∷ "toString" ∷ "valueOf"
    ∷ "__proto__" ∷ "toLocaleString" ∷ []

-- What `table[recordType]` is: nothing, a policy of the table, or an inherited value, which is
-- truthy and has no `fields`.
pub data PolicyEntry : Type 0 where
  missing inherited : PolicyEntry
  own : IdentityPolicy → PolicyEntry

abbrev entry_of : Option IdentityPolicy → Bool → PolicyEntry
entry_of (some p) i = own p
entry_of none true = inherited
entry_of none false = missing

unfoldable pub policy_for : Dict IdentityPolicy → String → PolicyEntry
policy_for table record_type =
    entry_of (get table record_type) (one_of object_prototype record_type)

unfoldable pub has_exact_identity : Fields → String → IdentityPolicy → Bool
has_exact_identity content user_id p =
    any (λ name. is_text (field_of content name) user_id) p.fields
    || any (λ name. array_includes (field_of content name) user_id) p.array_fields

-- `hasExactIdentity(data, userId, policy)` at an entry of a table
unfoldable pub identity_access : Fields → String → PolicyEntry → Access
identity_access content user_id missing = denied
identity_access content user_id inherited = type_error
identity_access content user_id (own p) = allow_if (has_exact_identity content user_id p)
