-- ===== src/Accounts/Tests.antt =====
-- One user with two sessions.
use managed_oss_cloud.Common.{if◌then◌else◌, [], ◌∷◌, none, ◌≡◌, leb, str_eq}
use managed_oss_cloud.Common.Dict.{get}
use managed_oss_cloud.Accounts.{
  Accounts, Session, create_session, find_user_by_session, delete_session,
}
use managed_oss_cloud.Accounts.Sessions.{session_lifetime}

abbrev accounts : Accounts
accounts = record {
  users =
      (
        "u",
        record {
          id = "u";
          email = "a@example.org";
          display_name = "A";
          password_hash = "hash";
          created_at = 0;
        },
      )
      ∷ [];
  sessions = ("first", record { user_id = "u"; expires_at = 500 }) ∷ [];
}

abbrev session : Session
session = record { user_id = "u"; expires_at = 900 }

session_lifetime_example :
    (find_user_by_session 300 "second" (create_session "second" session accounts)
      ≡ (if leb 900 300 then none else get accounts.users "u"))
    × (find_user_by_session 300 "first" (delete_session "second" accounts)
        ≡ (if str_eq "first" "second" then none else find_user_by_session 300 "first" accounts))
session_lifetime_example = session_lifetime accounts "second" "first" session 300
