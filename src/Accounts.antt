-- ===== src/Accounts.antt =====
-- The users and sessions of `MemoryRepository`, server/repository.ts: a session is found by the
-- hash of its token until it expires.
pub mod Sessions
mod Tests
use managed_oss_cloud.Common.{
  ℕ, String, Bool, not, List, [], ◌∷◌, Option, none, some, leb, find, str_eq, if◌then◌else◌,
}
use managed_oss_cloud.Common.Dict.{Dict, get, set, values}

pub record StoredUser : Type 0 where
  pub id : String
  pub email : String
  pub display_name : String
  pub password_hash : String
  pub created_at : ℕ

pub record Session : Type 0 where
  pub user_id : String
  pub expires_at : ℕ

pub record Accounts : Type 0 where
  pub users : Dict StoredUser
  pub sessions : Dict Session

unfoldable pub find_user_by_email : String → Accounts → Option StoredUser
find_user_by_email email accounts =
    find (λ (u : StoredUser). str_eq u.email email) (values accounts.users)

unfoldable pub find_user_by_id : String → Accounts → Option StoredUser
find_user_by_id id accounts = get accounts.users id

unfoldable pub create_user :
    ℕ → String → String → String → String → Accounts → StoredUser × Accounts
create_user now id email display_name password_hash accounts =
    let user : StoredUser = record {
      id = id;
      email = email;
      display_name = display_name;
      password_hash = password_hash;
      created_at = now;
    } in
    (user, record accounts { users = set accounts.users id user })

unfoldable pub create_session : String → Session → Accounts → Accounts
create_session token_hash session accounts = record accounts {
  sessions = set accounts.sessions token_hash session;
}

unfoldable pub find_user_by_session : ℕ → String → Accounts → Option StoredUser
find_user_by_session now token_hash accounts = elim (get accounts.sessions token_hash) [
  | none ↦ none
  | some session ↦ if leb session.expires_at now then none else get accounts.users session.user_id
]

-- `Map.delete`
pub without {ℓ} : {V : Type ℓ} → String → Dict V → Dict V
without k [] = []
without k ((j, v) ∷ m) = let rest = without k m in if str_eq j k then rest else (j, v) ∷ rest

unfoldable pub delete_session : String → Accounts → Accounts
unfolding without
delete_session token_hash accounts = record accounts {
  sessions = without token_hash accounts.sessions;
}
