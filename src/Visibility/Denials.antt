-- ===== src/Visibility/Denials.antt =====
-- Why a record may be read: what a check that allows says about the data it was made on.
use mathlib.Core.List.{Memᴰ}
use managed_oss_cloud.Common.{
  String, Bool, true, false, List, [], ◌∷◌, Option, none, some, ◌≡◌, refl, ◌⊎◌, inl, inr, any,
  one_of, if◌then◌else◌, arith, Bool-cases,
}
use managed_oss_cloud.Visibility.Values.{
  Value, Fields, field_of, is_text, text_of, array_includes, Access, allowed, denied, allow_if,
}
use managed_oss_cloud.Visibility.Policies.{
  IdentityPolicy, PolicyEntry, missing, inherited, own, has_exact_identity, identity_access,
}
use managed_oss_cloud.Visibility.Modules.{
  SuiteRecordVisibilityTarget, with_text, unless_one_of, if_text_in,
}

-- Some field of the data is the user, or is an array that holds the user.
abbrev pub IsNamed : String → Fields → Type 0
IsNamed user_id content =
    (name : String) × ((is_text (field_of content name) user_id ≡ true)
      ⊎ (array_includes (field_of content name) user_id ≡ true))

-- A field that classes the record, with the words that share it in the workspace.
abbrev pub sharing : List (String × List String)
sharing =
    ("privacy", "workspace" ∷ [])
    ∷ ("meetingPrivacy", "workspace" ∷ [])
    ∷ ("visibility", "workspace" ∷ "public-catalog" ∷ "public" ∷ "invited-public" ∷ [])
    ∷ ("courseVisibility", "workspace" ∷ "public-catalog" ∷ [])
    ∷ ("spaceVisibility", "workspace" ∷ "public" ∷ [])
    ∷ ("sessionVisibility", "workspace" ∷ "invited-public" ∷ [])
    ∷ ("assuranceClassification", "public" ∷ "internal" ∷ [])
    ∷ []

abbrev pub IsShared : Fields → Type 0
IsShared content =
    (class : String × List String) × Memᴰ class sharing
    × (word : String) × (text_of (field_of content class.0) ≡ some word)
    × (one_of class.1 word ≡ true)

-- The grounds on which a protected record is read.
pub data Reason (user_id : String) (r : SuiteRecordVisibilityTarget) (content : Fields)
    : Type 0 where
  named : IsNamed user_id content → Reason user_id r content
  shared : IsShared content → Reason user_id r content
  published : r.record_type ≡ "people-policy" → r.state ≡ "published" → Reason user_id r content

any_field :
    (test : String → Bool) (names : List String)
    → any test names ≡ true
    → (name : String) × (test name ≡ true)
any_field test [] h = cc
any_field test (n ∷ names) h = elim (Bool-cases (test n)) [
  | inl b ↦ (n, b)
  | inr b ↦ any_field test names (ground arith)
]

pub has_exact_identity-IsNamed :
    (user_id : String) (content : Fields) (p : IdentityPolicy)
    → has_exact_identity content user_id p ≡ true
    → IsNamed user_id content
unfolding has_exact_identity
has_exact_identity-IsNamed user_id content p h =
    elim (Bool-cases (any (λ name. is_text (field_of content name) user_id) p.fields)) [
      | inl b ↦
          let (name, q) = any_field (λ name. is_text (field_of content name) user_id) p.fields b in
          (name, inl q)
      | inr b ↦
          let (name, q) =
            any_field (λ name. array_includes (field_of content name) user_id) p.array_fields
              (ground arith) in
          (name, inr q)
    ]

pub allow_if-true : (b : Bool) → allow_if b ≡ allowed → b ≡ true
allow_if-true true h = refl
allow_if-true false h = cc

pub identity_access-IsNamed :
    (user_id : String) (content : Fields) (entry : PolicyEntry)
    → identity_access content user_id entry ≡ allowed
    → IsNamed user_id content
unfolding identity_access
identity_access-IsNamed user_id content missing h = cc
identity_access-IsNamed user_id content inherited h = cc
identity_access-IsNamed user_id content (own p) h =
    has_exact_identity-IsNamed user_id content p (allow_if-true _ h)

-- The rules for the combinators of a check.
pub if-allowed {ℓ} :
    {R : Type ℓ} (b : Bool) (x y : Access)
    → (if b then x else y) ≡ allowed
    → (b ≡ true → x ≡ allowed → R)
    → (b ≡ false → y ≡ allowed → R)
    → R
if-allowed true x y h f g = f refl h
if-allowed false x y h f g = g refl h

with_text-allowed :
    (o : Option String) (next : String → Access)
    → with_text o next ≡ allowed
    → (s : String) × (o ≡ some s) × (next s ≡ allowed)
with_text-allowed none next h = cc
with_text-allowed (some s) next h = (s, refl, h)

pub unless_one_of-allowed :
    (accepted : Bool) (names : List String) (value : Option Value) (next : Access)
    → unless_one_of accepted names value next ≡ allowed
    → next ≡ allowed
unless_one_of-allowed true names value next h = h
unless_one_of-allowed false names value next h =
    let (s, _, e) =
      with_text-allowed (text_of value) (λ s. if one_of names s then next else denied) h in
    if-allowed (one_of names s) next denied e (λ _ k. k) (λ _ k. cc)

pub if_text_in-allowed {ℓ} :
    {R : Type ℓ} (names : List String) (value : Option Value) (hit miss : Access)
    → if_text_in names value hit miss ≡ allowed
    → ((s : String) → text_of value ≡ some s → one_of names s ≡ true → hit ≡ allowed → R)
    → (miss ≡ allowed → R)
    → R
if_text_in-allowed names value hit miss h f g =
    let (s, found, e) =
      with_text-allowed (text_of value) (λ s. if one_of names s then hit else miss) h in
    if-allowed (one_of names s) hit miss e (λ b k. f s found b k) (λ _ k. g k)
