-- ===== src/Visibility/Reasons.antt =====
-- The reasons of the assurance, live and assistant modules, and of the policy as a whole: a member
-- who is neither owner nor administrator reads a protected record only for a reason.
use mathlib.Core.List.{Memᴰ}
use managed_oss_cloud.Common.{
  String, Bool, true, false, not, ◌&&◌, ◌||◌, [], ◌∷◌, Option, none, some, ◌≡◌, refl, ap, sym, ◌∙◌,
  inl, inr, one_of, str_eq, eq_iff, if◌then◌else◌, arith, Bool-cases, has_ink,
}
use managed_oss_cloud.Visibility.Values.{Fields, field_of, is_text, text_of, allowed, denied}
use managed_oss_cloud.Visibility.Policies.{IdentityPolicy}
use managed_oss_cloud.Visibility.Modules.{
  SuiteRecordVisibilityTarget, is_internal_record, can_read_assistant_record,
}
use managed_oss_cloud.Visibility.Assurance.{
  can_read_assurance_record, can_read_live_record, assurance_identity_policy, is_true, is_absent,
  live_identity_policy, shared_live_visibility, live_session_shared_record_types, live_access,
  session_visibility,
}
use managed_oss_cloud.Visibility.Denials.{
  Reason, shared, if-allowed, unless_one_of-allowed, if_text_in-allowed,
}
use managed_oss_cloud.Visibility.Grants.{
  by_policy, by_text, shared_by_visibility, visibility_words, people-Reason, meeting-Reason,
  learning-Reason, community-Reason,
}
use managed_oss_cloud.Visibility.{
  SuiteRecordReadPrincipal, is_privileged, protected_module_ids, authorization_data, module_access,
  data_access, can_read_suite_record, can_read_private_ai_record, is_globally_private_ai_record,
}

live_word : (s : String) → one_of shared_live_visibility s ≡ true → one_of visibility_words s ≡ true
live_word s h = ground arith

module _ (user_id : String) (r : SuiteRecordVisibilityTarget) (content : Fields) where
  assistant-Reason : can_read_assistant_record user_id content ≡ allowed → Reason user_id r content
  unfolding can_read_assistant_record
  assistant-Reason h = by_policy user_id r content _ h

  private_ai-Reason :
      can_read_private_ai_record user_id content ≡ allowed → Reason user_id r content
  unfolding can_read_private_ai_record
  private_ai-Reason h = by_policy user_id r content _ h

  assurance-Reason :
      can_read_assurance_record user_id r content ≡ allowed → Reason user_id r content
  unfolding can_read_assurance_record
  assurance-Reason h =
      if-allowed (is_internal_record r.record_type) denied _ h (λ _ k. cc)
        (λ _ h.
          if-allowed
            (str_eq r.record_type "audit-pack"
              || is_true (field_of content "private")
              || str_eq r.state "ready-private")
            _ _ h (λ _ k. by_policy user_id r content assurance_identity_policy k)
            (λ _ k.
              by_text user_id r content ("assuranceClassification", "public" ∷ "internal" ∷ []) _ _
                (Memᴰ.tail
                  (Memᴰ.tail (Memᴰ.tail (Memᴰ.tail (Memᴰ.tail (Memᴰ.tail (Memᴰ.head refl)))))))
                k
                (λ k. by_policy user_id r content assurance_identity_policy (
                  unless_one_of-allowed (is_absent (field_of content "assuranceClassification"))
                    ("confidential" ∷ "restricted" ∷ [])
                    (field_of content "assuranceClassification") _ k))))

  live-shared :
      (s : String)
      → text_of (session_visibility r content) ≡ some s
      → one_of shared_live_visibility s ≡ true
      → Reason user_id r content
  live-shared s e o = elim (Bool-cases (str_eq r.record_type "live-session")) [
    | inl b ↦
        shared_by_visibility user_id r content s
          (ap
              (λ v.
                text_of (
                  if v
                  then field_of content "visibility"
                  else field_of content "sessionVisibility"))
              (sym b)
            ∙ e)
          (live_word s o)
    | inr b ↦ shared (
      ("sessionVisibility", shared_live_visibility),
      Memᴰ.tail (Memᴰ.tail (Memᴰ.tail (Memᴰ.tail (Memᴰ.tail (Memᴰ.head refl))))),
      s,
      ap
            (λ v.
              text_of
                (if v then field_of content "visibility" else field_of content "sessionVisibility"))
            (sym b)
          ∙ e,
      o,
    )
  ]

  live_access-Reason :
      (narrow : Option IdentityPolicy)
      → live_access user_id r content (session_visibility r content) narrow ≡ allowed
      → Reason user_id r content
  live_access-Reason (some p) h = by_policy user_id r content p h
  live_access-Reason none h =
      if-allowed
        (not (
          str_eq r.record_type "live-session"
          || one_of live_session_shared_record_types r.record_type))
        denied _ h (λ _ k. cc)
        (λ _ h.
          if-allowed (str_eq r.record_type "live-chat-message" && not (str_eq r.state "visible")) _
            _ h (λ _ k. by_policy user_id r content _ k)
            (λ _ k.
              if_text_in-allowed shared_live_visibility (session_visibility r content) allowed _ k
                (λ s e o _. live-shared s e o) (λ k. by_policy user_id r content _ k)))

  live-Reason : can_read_live_record user_id r content ≡ allowed → Reason user_id r content
  unfolding can_read_live_record
  live-Reason h =
      if-allowed (is_internal_record r.record_type) denied _ h (λ _ k. cc)
        (λ _ k. live_access-Reason (live_identity_policy r.record_type) (
          unless_one_of-allowed (is_text (session_visibility r content) "private")
            shared_live_visibility (session_visibility r content) _ k))

  module_access-Reason :
      one_of protected_module_ids r.module_id ≡ true
      → module_access user_id r content ≡ allowed
      → Reason user_id r content
  unfolding module_access
  module_access-Reason m h =
      if-allowed (is_globally_private_ai_record r.record_type) _ _ h (λ _ k. private_ai-Reason k)
        (λ _ h.
          if-allowed (not (one_of protected_module_ids r.module_id)) allowed _ h
            (λ b _. absurd (ground (arith, b, m)))
            (λ _ h.
              if-allowed (str_eq r.module_id "people") _ _ h
                (λ _ k. people-Reason user_id r content k)
                (λ _ h.
                  if-allowed (str_eq r.module_id "meetings") _ _ h
                    (λ _ k. meeting-Reason user_id r content k)
                    (λ _ h.
                      if-allowed (str_eq r.module_id "learning") _ _ h
                        (λ _ k. learning-Reason user_id r content k)
                        (λ _ h.
                          if-allowed (str_eq r.module_id "assistant") _ _ h
                            (λ _ k. assistant-Reason k)
                            (λ _ h.
                              if-allowed (str_eq r.module_id "community") _ _ h
                                (λ _ k. community-Reason user_id r content k)
                                (λ _ h.
                                  if-allowed (str_eq r.module_id "assurance") _ _ h
                                    (λ _ k. assurance-Reason k) (λ _ k. live-Reason k))))))))

data_access-Reason :
    (user_id : String) (r : SuiteRecordVisibilityTarget) (found : Option Fields)
    → one_of protected_module_ids r.module_id ≡ true
    → data_access user_id r found ≡ allowed
    → (content : Fields) × (found ≡ some content) × Reason user_id r content
data_access-Reason user_id r none m h = cc
data_access-Reason user_id r (some content) m h =
    (content, refl, module_access-Reason user_id r content m h)

-- A principal who is neither owner nor administrator reads a record of a protected module only in
-- the record's own workspace, and only if its authorization data names the user, or holds a word
-- that shares the record's class, or the record is a published people policy.
pub can_read-Reason :
    (principal : SuiteRecordReadPrincipal) (r : SuiteRecordVisibilityTarget)
    → is_privileged principal.role ≡ false
    → one_of protected_module_ids r.module_id ≡ true
    → can_read_suite_record principal r ≡ allowed
    → (r.workspace_id ≡ principal.workspace_id)
      × ((content : Fields) × (authorization_data r ≡ some content)
          × Reason principal.user_id r content)
unfolding can_read_suite_record
can_read-Reason principal r p m h =
    if-allowed
      (not (has_ink principal.user_id)
        || not (has_ink principal.workspace_id)
        || not (str_eq r.workspace_id principal.workspace_id))
      denied _ h (λ _ k. cc)
      (λ b h.
        if-allowed (is_privileged principal.role) allowed _ h (λ q _. absurd (ground (arith, p, q)))
          (λ _ k. (
            same_workspace (has_ink principal.user_id) (has_ink principal.workspace_id) _ _ b,
            data_access-Reason principal.user_id r (authorization_data r) m k,
          )))
  where
    same_workspace :
        (a b : Bool) (s t : String) → (not a || not b || not (str_eq s t)) ≡ false → s ≡ t
    same_workspace a b s t h = ground (arith, eq_iff s t)
