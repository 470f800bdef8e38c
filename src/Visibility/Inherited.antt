-- ===== src/Visibility/Inherited.antt =====
-- The policy tables are plain objects: under a record type such as `constructor` a lookup finds a
-- value that every object inherits, and the check for an unknown type lets it pass.
use managed_oss_cloud.Common.{
  String, true, false, List, [], ◌∷◌, some, ◌≡◌, refl, arith, All, one_of, str_eq, eq_iff,
  Bool-cases, inl, inr,
}
use mathlib.Core.Path.{subst}
use managed_oss_cloud.Common.Dict.{get}
use managed_oss_cloud.Visibility.Values.{Fields, text, field_of, to_text, allowed, type_error}
use managed_oss_cloud.Visibility.Policies.{
  inherited, policy_for, object_prototype, meeting_identity_policies, identity_access,
}
use managed_oss_cloud.Visibility.Modules.{
  SuiteRecordVisibilityTarget, can_read_meeting_record, meeting_access, is_internal_record,
}

one_of-All :
    (P : String → Type 0) (names : List String) (s : String)
    → All P names
    → one_of names s ≡ true
    → P s
one_of-All P [] s h o = cc
one_of-All P (n ∷ names) s h o = elim (Bool-cases (str_eq n s)) [
  | inl b ↦ subst P ((eq_iff n s).0 b) h.0
  | inr b ↦ one_of-All P names s h.1 (ground (arith, b, o))
]

-- What the meeting check finds out about a record type before it asks for the privacy.
abbrev PassesAsKnown : String → Type 0
PassesAsKnown s =
    (policy_for meeting_identity_policies s ≡ inherited)
    × (is_internal_record s ≡ false)
    × (str_eq s "meeting" ≡ false)
    × (str_eq s "meeting-export" ≡ false)
    × (str_eq s "ai-proposal-request" ≡ false)

inherited-PassesAsKnown : (s : String) → one_of object_prototype s ≡ true → PassesAsKnown s
unfolding policy_for get
inherited-PassesAsKnown s = one_of-All PassesAsKnown object_prototype s (
  (refl, refl, refl, refl, refl),
  (
    (refl, refl, refl, refl, refl),
    (
      (refl, refl, refl, refl, refl),
      (
        (refl, refl, refl, refl, refl),
        (
          (refl, refl, refl, refl, refl),
          (
            (refl, refl, refl, refl, refl),
            (
              (refl, refl, refl, refl, refl),
              (
                (refl, refl, refl, refl, refl),
                (
                  (refl, refl, refl, refl, refl),
                  (
                    (refl, refl, refl, refl, refl),
                    ((refl, refl, refl, refl, refl), ((refl, refl, refl, refl, refl), tt)),
                  ),
                ),
              ),
            ),
          ),
        ),
      ),
    ),
  ),
)

-- A meeting record whose type names a property of `Object.prototype` is in no policy table. Every
-- member reads it if its meeting is shared with the workspace, and the check throws if the meeting
-- is confidential.
pub inherited_type_passes :
    (user_id : String) (r : SuiteRecordVisibilityTarget) (content : Fields)
    → one_of object_prototype r.record_type ≡ true
    → (field_of content "meetingPrivacy" ≡ some (text "workspace")
        → can_read_meeting_record user_id r content ≡ allowed)
      × (field_of content "meetingPrivacy" ≡ some (text "confidential")
          → can_read_meeting_record user_id r content ≡ type_error)
unfolding can_read_meeting_record identity_access to_text
inherited_type_passes user_id r content o =
    let (entry, internal, meeting, exported, proposal) = inherited-PassesAsKnown r.record_type o in
    (
      λ shared.
          rw (internal, meeting, shared, exported) (rw (entry, proposal, shared, meeting_access)),
      λ secret.
          rw (internal, meeting, secret, exported) (rw (entry, proposal, secret, meeting_access)),
    )
