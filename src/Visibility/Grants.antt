-- ===== src/Visibility/Grants.antt =====
-- Each of the modules people, meetings, learning and community allows a read only for a reason.
use mathlib.Core.List.{Memᴰ}
use managed_oss_cloud.Common.{
  String, Bool, true, false, ◌&&◌, ◌||◌, List, [], ◌∷◌, Option, some, ◌≡◌, refl, ap, inl, one_of,
  str_eq, eq_iff, arith, and-parts,
}
use managed_oss_cloud.Visibility.Values.{
  Value, Fields, text, field_of, is_text, text_of, to_text, Access, allowed, denied, allow_if,
}
use managed_oss_cloud.Visibility.Policies.{
  IdentityPolicy, policy, PolicyEntry, missing, inherited, own, policy_for, has_exact_identity,
  identity_access, people_identity_policies, meeting_identity_policies, learning_identity_policies,
  community_identity_policies,
}
use managed_oss_cloud.Visibility.Modules.{
  SuiteRecordVisibilityTarget, is_internal_record, if_text_in, can_read_people_record,
  can_read_meeting_record, can_read_learning_record, can_read_community_record, people_access,
  without_manager, meeting_access, protected_meeting_privacy, learning_access,
  shared_learning_visibility, shared_learning_record_types, community_access,
  shared_community_visibility, without_arrays, is_shareable_community_state,
}
use managed_oss_cloud.Visibility.Denials.{
  sharing, Reason, named, shared, published, has_exact_identity-IsNamed, allow_if-true,
  identity_access-IsNamed, if-allowed, unless_one_of-allowed, if_text_in-allowed,
}

is_text-text_of : (v : Option Value) (t : String) → is_text v t ≡ true → text_of v ≡ some t
unfolding to_text
is_text-text_of (some (text s)) t h = ap some ((eq_iff s t).0 h)
is_text-text_of _ t h = cc

abbrev pub visibility_words : List String
visibility_words = "workspace" ∷ "public-catalog" ∷ "public" ∷ "invited-public" ∷ []

learning_word :
    (s : String) → one_of shared_learning_visibility s ≡ true → one_of visibility_words s ≡ true
learning_word s h = ground arith

community_word :
    (s : String) → one_of shared_community_visibility s ≡ true → one_of visibility_words s ≡ true
community_word s h = ground arith

module _ (user_id : String) (r : SuiteRecordVisibilityTarget) (content : Fields) where
  pub by_policy :
      (p : IdentityPolicy)
      → allow_if (has_exact_identity content user_id p) ≡ allowed
      → Reason user_id r content
  by_policy p h = named (has_exact_identity-IsNamed user_id content p (allow_if-true _ h))

  by_entry :
      (entry : PolicyEntry)
      → identity_access content user_id entry ≡ allowed
      → Reason user_id r content
  by_entry entry h = named (identity_access-IsNamed user_id content entry h)

  -- the second of two tests names the user
  by_manager :
      (b : Bool) (name : String)
      → allow_if (b && is_text (field_of content name) user_id) ≡ allowed
      → Reason user_id r content
  by_manager b name h = named (name, inl (and-parts b _ (allow_if-true _ h)).1)

  people_access-Reason :
      (entry : PolicyEntry)
      → people_access user_id content entry ≡ allowed
      → Reason user_id r content
  people_access-Reason missing h = cc
  people_access-Reason inherited h = cc
  people_access-Reason (own p) h =
      if-allowed (has_exact_identity content user_id (without_manager p)) allowed _ h
        (λ b _. named (has_exact_identity-IsNamed user_id content (without_manager p) b))
        (λ _ k.
          by_manager (is_text (field_of content "profilePrivacy") "manager-and-person") "managerRef"
            k)

  pub people-Reason : can_read_people_record user_id r content ≡ allowed → Reason user_id r content
  unfolding can_read_people_record
  people-Reason h =
      if-allowed (str_eq r.record_type "people-policy") _ _ h
        (λ b k. published ((eq_iff _ _).0 b) ((eq_iff _ _).0 (allow_if-true _ k)))
        (λ _ h.
          if-allowed
            (str_eq r.record_type "ai-proposal-request" || is_internal_record r.record_type) denied
            _ h (λ _ k. cc)
            (λ _ h.
              if-allowed (str_eq r.record_type "people-profile") _ _ h
                (λ _ k.
                  if-allowed (is_text (field_of content "employeeRef") user_id) allowed _ k
                    (λ b _. named ("employeeRef", inl b))
                    (λ _ k.
                      by_manager (is_text (field_of content "privacy") "manager-and-person")
                        "managerRef" k))
                (λ _ k.
                  people_access-Reason (policy_for people_identity_policies r.record_type) k)))

  -- the strict test for one word that shares the record
  pub by_word :
      (class : String × List String) (word : String)
      → Memᴰ class sharing
      → one_of class.1 word ≡ true
      → is_text (field_of content class.0) word ≡ true
      → Reason user_id r content
  by_word class word m o h = shared (class, m, word, is_text-text_of _ word h, o)

  meeting_access-Reason :
      (entry : PolicyEntry)
      → meeting_access user_id r content entry ≡ allowed
      → Reason user_id r content
  meeting_access-Reason missing h = cc
  meeting_access-Reason entry h =
      if-allowed (str_eq r.record_type "ai-proposal-request") _ _ h (λ _ k. by_entry entry k)
        (λ _ h.
          if-allowed (is_text (field_of content "meetingPrivacy") "workspace") allowed _ h
            (λ b _.
              by_word ("meetingPrivacy", "workspace" ∷ []) "workspace" (Memᴰ.tail (Memᴰ.head refl))
                refl b)
            (λ _ k. by_entry entry k))

  pub meeting-Reason :
      can_read_meeting_record user_id r content ≡ allowed → Reason user_id r content
  unfolding can_read_meeting_record
  meeting-Reason h =
      if-allowed (is_internal_record r.record_type) denied _ h (λ _ k. cc)
        (λ _ h.
          if-allowed (str_eq r.record_type "meeting") _ _ h
            (λ _ h.
              if-allowed (is_text (field_of content "privacy") "workspace") allowed _ h
                (λ b _. by_word ("privacy", "workspace" ∷ []) "workspace" (Memᴰ.head refl) refl b)
                (λ _ k. by_policy (policy ("createdBy" ∷ []) ("participantUserRefs" ∷ [])) (
                  unless_one_of-allowed false protected_meeting_privacy (field_of content "privacy")
                    _ k)))
            (λ _ h.
              if-allowed (str_eq r.record_type "meeting-export") _ _
                (unless_one_of-allowed (is_text (field_of content "meetingPrivacy") "workspace")
                  protected_meeting_privacy (field_of content "meetingPrivacy") _ h)
                (λ _ k. by_policy _ k)
                (λ _ k.
                  meeting_access-Reason (policy_for meeting_identity_policies r.record_type) k)))

  -- `set.has(String(value))` for words that share the record
  pub by_text :
      (class : String × List String) (hit miss : Access)
      → Memᴰ class sharing
      → if_text_in class.1 (field_of content class.0) hit miss ≡ allowed
      → (miss ≡ allowed → Reason user_id r content)
      → Reason user_id r content
  by_text class hit miss m h g =
      if_text_in-allowed class.1 (field_of content class.0) hit miss h
        (λ s e o _. shared (class, m, s, e, o)) g

  pub shared_by_visibility :
      (s : String)
      → text_of (field_of content "visibility") ≡ some s
      → one_of visibility_words s ≡ true
      → Reason user_id r content
  shared_by_visibility s e o =
      shared (("visibility", visibility_words), Memᴰ.tail (Memᴰ.tail (Memᴰ.head refl)), s, e, o)

  learning_access-Reason :
      (entry : PolicyEntry)
      → learning_access user_id r content entry ≡ allowed
      → Reason user_id r content
  learning_access-Reason missing h = cc
  learning_access-Reason entry h =
      if-allowed (one_of shared_learning_record_types r.record_type) _ _ h
        (λ _ k.
          by_text ("courseVisibility", shared_learning_visibility) allowed _
            (Memᴰ.tail (Memᴰ.tail (Memᴰ.tail (Memᴰ.head refl)))) k (λ k. by_entry entry k))
        (λ _ k. by_entry entry k)

  pub learning-Reason :
      can_read_learning_record user_id r content ≡ allowed → Reason user_id r content
  unfolding can_read_learning_record
  learning-Reason h =
      if-allowed (is_internal_record r.record_type) denied _ h (λ _ k. cc)
        (λ _ h.
          if-allowed (str_eq r.record_type "learning-course") _ _ h
            (λ _ k.
              if_text_in-allowed shared_learning_visibility (field_of content "visibility") allowed
                _ k (λ s e o _. shared_by_visibility s e (learning_word s o))
                (λ k.
                  if-allowed (is_text (field_of content "visibility") "private") _ denied k
                    (λ _ k. by_policy _ k) (λ _ k. cc)))
            (λ _ h. learning_access-Reason (policy_for learning_identity_policies r.record_type) (
              unless_one_of-allowed (is_text (field_of content "courseVisibility") "private")
                shared_learning_visibility (field_of content "courseVisibility") _ h)))

  community_access-Reason :
      (entry : PolicyEntry)
      → community_access user_id r content entry ≡ allowed
      → Reason user_id r content
  community_access-Reason missing h = cc
  community_access-Reason entry h =
      if-allowed (str_eq r.record_type "ai-proposal-request") _ _ h (λ _ k. by_entry entry k)
        (λ _ k.
          by_text ("spaceVisibility", shared_community_visibility) _ _
            (Memᴰ.tail (Memᴰ.tail (Memᴰ.tail (Memᴰ.tail (Memᴰ.head refl))))) k
            (λ k.
              if-allowed (is_shareable_community_state r) _ _ k (λ _ k. by_entry entry k)
                (λ _ k. by_entry (without_arrays entry) k)))

  pub community-Reason :
      can_read_community_record user_id r content ≡ allowed → Reason user_id r content
  unfolding can_read_community_record
  community-Reason h =
      if-allowed (is_internal_record r.record_type) denied _ h (λ _ k. cc)
        (λ _ h.
          if-allowed (str_eq r.record_type "community-space") _ _ h
            (λ _ k.
              if_text_in-allowed shared_community_visibility (field_of content "visibility") allowed
                _ k (λ s e o _. shared_by_visibility s e (community_word s o))
                (λ k.
                  if-allowed (is_text (field_of content "visibility") "private") _ denied k
                    (λ _ k. by_policy _ k) (λ _ k. cc)))
            (λ _ h. community_access-Reason (policy_for community_identity_policies r.record_type) (
              unless_one_of-allowed (is_text (field_of content "spaceVisibility") "private")
                shared_community_visibility (field_of content "spaceVisibility") _ h)))
