-- ===== src/Visibility/Envelope.antt =====
-- Additive records are authorized from their envelope, and unknown record types are denied.
use managed_oss_cloud.Common.{
  String, true, false, not, ◌||◌, [], ◌∷◌, Option, none, some, ◌≡◌, ◌≢◌, refl, ap, ◌∙◌, one_of,
  str_eq, has_ink, eq_iff, arith, if◌then◌else◌,
}
use managed_oss_cloud.Visibility.Values.{Fields, obj, field_of, is_text, allowed, denied}
use managed_oss_cloud.Visibility.Policies.{
  missing, policy_for, people_identity_policies, meeting_identity_policies,
  learning_identity_policies, community_identity_policies,
}
use managed_oss_cloud.Visibility.Modules.{
  SuiteRecordVisibilityTarget, can_read_people_record, can_read_meeting_record,
  can_read_learning_record, can_read_community_record, meeting_access, is_shareable_community_state,
  protected_meeting_privacy, is_internal_record,
}
use managed_oss_cloud.Visibility.Denials.{if-allowed, unless_one_of-allowed}
use managed_oss_cloud.Visibility.Assurance.{can_read_assurance_record, can_read_live_record}
use managed_oss_cloud.Visibility.{
  SuiteRecordReadPrincipal, is_privileged, authorization_data, module_access, data_access,
  envelope_data, can_read_suite_record, record_data,
}

abbrev with_content : SuiteRecordVisibilityTarget → Fields → SuiteRecordVisibilityTarget
with_content r content = record r { content = obj content }

abbrev IsAdditive : Fields → Type 0
IsAdditive content =
    is_text (field_of content "additiveContract") "additive-business-record.v1" ≡ true

same_data :
    (user_id : String) (r : SuiteRecordVisibilityTarget) (c c' : Fields) (found : Option Fields)
    → data_access user_id (with_content r c) found ≡ data_access user_id (with_content r c') found
unfolding module_access can_read_people_record can_read_meeting_record can_read_learning_record
    can_read_community_record can_read_assurance_record can_read_live_record
    is_shareable_community_state
same_data user_id r c c' none = refl
same_data user_id r c c' (some content) = refl

same_envelope :
    (r : SuiteRecordVisibilityTarget) (c c' : Fields) (stored : Option Fields)
    → envelope_data (with_content r c) stored ≡ envelope_data (with_content r c') stored
unfolding envelope_data
same_envelope r c c' none = refl
same_envelope r c c' (some stored) = refl

same_authorization :
    (r : SuiteRecordVisibilityTarget) (c c' : Fields)
    → IsAdditive c
    → IsAdditive c'
    → field_of c "record" ≡ field_of c' "record"
    → authorization_data (with_content r c) ≡ authorization_data (with_content r c')
unfolding authorization_data
same_authorization r c c' a a' e =
    rw (a, a')
      (same_envelope r c c' (record_data (field_of c "record"))
        ∙ ap (λ v. envelope_data (with_content r c') (record_data v)) e)

-- Two additive records with the same envelope and the same identity are read by the same
-- principals, whatever their other top-level fields say.
pub top_level_ignored :
    (principal : SuiteRecordReadPrincipal) (r : SuiteRecordVisibilityTarget) (c c' : Fields)
    → IsAdditive c
    → IsAdditive c'
    → field_of c "record" ≡ field_of c' "record"
    → can_read_suite_record principal (with_content r c)
      ≡ can_read_suite_record principal (with_content r c')
unfolding can_read_suite_record
top_level_ignored principal r c c' a a' e =
    ap
      (λ x.
        if not (has_ink principal.user_id)
          || not (has_ink principal.workspace_id)
          || not (str_eq r.workspace_id principal.workspace_id)
        then denied
        else if is_privileged principal.role
        then allowed
        else x)
      (same_data principal.user_id r c c' (authorization_data (with_content r c))
        ∙ ap (data_access principal.user_id (with_content r c')) (same_authorization r c c' a a' e))

meeting_type_denied :
    (user_id : String) (r : SuiteRecordVisibilityTarget) (content : Fields)
    → policy_for meeting_identity_policies r.record_type ≡ missing
    → str_eq r.record_type "meeting" ≡ false
    → str_eq r.record_type "meeting-export" ≡ false
    → can_read_meeting_record user_id r content ≢ allowed
unfolding can_read_meeting_record
meeting_type_denied user_id r content m p q h =
    if-allowed (is_internal_record r.record_type) denied _ h (λ _ k. cc)
      (λ _ h.
        if-allowed (str_eq r.record_type "meeting") _ _ h (λ b _. cc)
          (λ _ h.
            if-allowed (str_eq r.record_type "meeting-export") _ _
              (unless_one_of-allowed (is_text (field_of content "meetingPrivacy") "workspace")
                protected_meeting_privacy (field_of content "meetingPrivacy") _ h)
              (λ b _. cc) (λ _ k. cc (ap (meeting_access user_id r content) m, k))))

-- A record type that no table of the module lists, that is none of the module's parent types and
-- that names no property which every object inherits, is denied in each of the four modules with
-- tables, whatever the data says.
pub unknown_type_denied :
    (user_id : String) (r : SuiteRecordVisibilityTarget) (content : Fields)
    → (policy_for people_identity_policies r.record_type ≡ missing
        → one_of ("people-policy" ∷ "people-profile" ∷ []) r.record_type ≡ false
        → can_read_people_record user_id r content ≡ denied)
      × (policy_for meeting_identity_policies r.record_type ≡ missing
          → one_of ("meeting" ∷ "meeting-export" ∷ []) r.record_type ≡ false
          → can_read_meeting_record user_id r content ≢ allowed)
      × (policy_for learning_identity_policies r.record_type ≡ missing
          → one_of ("learning-course" ∷ []) r.record_type ≡ false
          → can_read_learning_record user_id r content ≢ allowed)
      × (policy_for community_identity_policies r.record_type ≡ missing
          → one_of ("community-space" ∷ []) r.record_type ≡ false
          → can_read_community_record user_id r content ≢ allowed)
unfolding can_read_people_record can_read_meeting_record can_read_learning_record
    can_read_community_record
unknown_type_denied user_id r content = (
  λ m n. ground (
    arith,
    eq_iff "people-policy" r.record_type,
    eq_iff r.record_type "people-policy",
    eq_iff "people-profile" r.record_type,
    eq_iff r.record_type "people-profile",
  ),
  λ m n h.
      meeting_type_denied user_id r content m
        (ground (arith, eq_iff "meeting" r.record_type, eq_iff r.record_type "meeting"))
        (ground
          (arith, eq_iff "meeting-export" r.record_type, eq_iff r.record_type "meeting-export"))
        h,
  λ m n.
      ground
        (arith, eq_iff "learning-course" r.record_type, eq_iff r.record_type "learning-course"),
  λ m n.
      ground
        (arith, eq_iff "community-space" r.record_type, eq_iff r.record_type "community-space"),
)
