-- ===== src/Visibility/Tests.antt =====
-- Records of two modules, read by a member of their workspace.
use managed_oss_cloud.Common.{String, false, [], ◌∷◌, some, ◌≡◌, ◌≢◌, refl, one_of}
use managed_oss_cloud.Common.Dict.{get}
use managed_oss_cloud.Visibility.Values.{
  Fields, text, obj, end, entry, field_of, allowed, denied, type_error,
}
use managed_oss_cloud.Visibility.Policies.{
  missing, policy_for, has_exact_identity, meeting_identity_policies, people_identity_policies,
  learning_identity_policies, community_identity_policies,
}
use managed_oss_cloud.Visibility.Modules.{
  SuiteRecordVisibilityTarget, can_read_people_record, can_read_meeting_record,
  can_read_learning_record, can_read_community_record,
}
use managed_oss_cloud.Visibility.Denials.{Reason}
use managed_oss_cloud.Visibility.Reasons.{can_read-Reason}
use managed_oss_cloud.Visibility.Envelope.{top_level_ignored, unknown_type_denied}
use managed_oss_cloud.Visibility.Inherited.{inherited_type_passes}
use managed_oss_cloud.Visibility.{
  SuiteRecordReadPrincipal, member, authorization_data, module_access, can_read_suite_record,
}

abbrev ana : SuiteRecordReadPrincipal
ana = record { user_id = "ana"; workspace_id = "w1"; role = member }

abbrev record_of : String → String → Fields → SuiteRecordVisibilityTarget
record_of module_id record_type content = record {
  workspace_id = "w1";
  module_id = module_id;
  record_type = record_type;
  state = "open";
  content = obj content;
}

abbrev leave : Fields
leave = entry "subjectUserId" (text "ana") end

leave_is_read : can_read_suite_record ana (record_of "people" "leave-request" leave) ≡ allowed
unfolding can_read_suite_record authorization_data module_access can_read_people_record policy_for
    get has_exact_identity
leave_is_read = refl

abbrev of_bob : Fields
of_bob = entry "subjectUserId" (text "bob") end

other_is_denied : can_read_suite_record ana (record_of "people" "leave-request" of_bob) ≡ denied
unfolding can_read_suite_record authorization_data module_access can_read_people_record policy_for
    get has_exact_identity
other_is_denied = refl

can_read-Reason_example :
    ((record_of "people" "leave-request" leave).workspace_id ≡ ana.workspace_id)
    × ((content : Fields) × (authorization_data (record_of "people" "leave-request" leave)
          ≡ some content)
        × Reason "ana" (record_of "people" "leave-request" leave) content)
can_read-Reason_example =
    can_read-Reason ana (record_of "people" "leave-request" leave) refl refl leave_is_read

-- an additive record around the same data, with a top-level field
abbrev additive : String → Fields
additive subject = entry "additiveContract" (text "additive-business-record.v1") (
    entry "subjectUserId" (text subject) (
      entry "record"
        (obj (
          entry "workspaceId" (text "w1") (
            entry "moduleId" (text "people") (
              entry "recordType" (text "leave-request")
                (entry "state" (text "open") (entry "data" (obj leave) end))))))
        end))

abbrev leave_record : String → SuiteRecordVisibilityTarget
leave_record subject = record_of "people" "leave-request" (additive subject)

envelope_is_read : can_read_suite_record ana (leave_record "bob") ≡ allowed
unfolding can_read_suite_record authorization_data module_access can_read_people_record policy_for
    get has_exact_identity
envelope_is_read = refl

top_level_ignored_example :
    can_read_suite_record ana (leave_record "bob") ≡ can_read_suite_record ana (leave_record "ana")
top_level_ignored_example =
    top_level_ignored ana (record_of "people" "leave-request" leave) (additive "bob")
      (additive "ana") refl refl refl

abbrev note : SuiteRecordVisibilityTarget
note = record_of "people" "note" leave

abbrev DeniedEverywhere : String → SuiteRecordVisibilityTarget → Fields → Type 0
DeniedEverywhere user_id r content =
    (policy_for people_identity_policies r.record_type ≡ missing
      → one_of ("people-policy" ∷ "people-profile" ∷ []) r.record_type ≡ false
      → can_read_people_record user_id r content ≡ denied)
    × (policy_for meeting_identity_policies r.record_type ≡ missing
        → one_of ("meeting" ∷ "meeting-export" ∷ []) r.record_type ≡ false
        → can_read_meeting_record user_id r content ≢ allowed)
    × (policy_for learning_identity_policies r.record_type ≡ missing
        → one_of ("learning-course" ∷ []) r.record_type ≡ false
        → can_read_learning_record user_id r content ≢ allowed)
    × (policy_for community_identity_policies r.record_type ≡ missing
        → one_of ("community-space" ∷ []) r.record_type ≡ false
        → can_read_community_record user_id r content ≢ allowed)

unknown_type_denied_example : DeniedEverywhere "ana" note leave
unknown_type_denied_example = unknown_type_denied "ana" note leave

unknown_type_runs : policy_for people_identity_policies "note" ≡ missing
unfolding policy_for get
unknown_type_runs = refl

abbrev shared_meeting : Fields
shared_meeting = entry "meetingPrivacy" (text "workspace") end

abbrev oddity : SuiteRecordVisibilityTarget
oddity = record_of "meetings" "constructor" shared_meeting

inherited_type_runs : can_read_meeting_record "ana" oddity shared_meeting ≡ allowed
unfolding can_read_meeting_record policy_for get
inherited_type_runs = refl

inherited_type_passes_example :
    (field_of shared_meeting "meetingPrivacy" ≡ some (text "workspace")
      → can_read_meeting_record "ana" oddity shared_meeting ≡ allowed)
    × (field_of shared_meeting "meetingPrivacy" ≡ some (text "confidential")
        → can_read_meeting_record "ana" oddity shared_meeting ≡ type_error)
inherited_type_passes_example = inherited_type_passes "ana" oddity shared_meeting refl
