-- ===== src/Accounts/Sessions.antt =====
-- A session opens its user's account until it expires or is deleted.
use managed_oss_cloud.Common.{
  ℕ, String, [], ◌∷◌, none, ◌≡◌, refl, arith, leb, str_eq, eq_iff, inl, inr, Bool-cases,
  if◌then◌else◌,
}
use managed_oss_cloud.Common.Dict.{Dict, get, get-set_same}
use managed_oss_cloud.Accounts.{
  Accounts, Session, without, create_session, find_user_by_session, delete_session,
}

get-without {ℓ} :
    {V : Type ℓ} (m : Dict V) (k j : String)
    → get (without k m) j ≡ (if str_eq j k then none else get m j)
unfolding get without
get-without [] k j = elim (Bool-cases (str_eq j k)) [ inl b ↦ rw b refl | inr b ↦ rw b refl ]
get-without ((i, v) ∷ m) k j = ground (arith, eq_iff i k, eq_iff i j, eq_iff j k, get-without m k j)

-- A new session opens its user's account before it expires and nothing from then on; after its
-- deletion it opens nothing, and every other session opens what it opened before.
pub session_lifetime :
    (accounts : Accounts) (token other : String) (session : Session) (now : ℕ)
    → (find_user_by_session now token (create_session token session accounts)
        ≡ (if leb session.expires_at now then none else get accounts.users session.user_id))
      × (find_user_by_session now other (delete_session token accounts)
          ≡ (if str_eq other token then none else find_user_by_session now other accounts))
unfolding find_user_by_session create_session delete_session
session_lifetime accounts token other session now = (
  rw (get-set_same accounts.sessions token session, find_user_by_session) refl,
  elim (Bool-cases (str_eq other token)) [
    | inl b ↦ rw (get-without accounts.sessions token other, find_user_by_session, b) refl
    | inr b ↦ rw (get-without accounts.sessions token other, find_user_by_session, b) refl
  ],
)
