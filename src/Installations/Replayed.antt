-- ===== src/Installations/Replayed.antt =====
-- A clone request that is sent again comes to the same application.
use managed_oss_cloud.Common.{
  ℕ, String, Bool, true, false, Option, some, ◌≡◌, refl, ap, sym, ◌∙◌, inl, inr, trim, str_eq,
  eq_refl, Bool-cases, Option-cases,
}
use mathlib.Core.Path.{subst}
use managed_oss_cloud.Common.Dict.{get, get-set_same}
use managed_oss_cloud.Common.Number.{NumberOps}
use managed_oss_cloud.Common.Result.{Result, thrown, returned, returned_inj}
use managed_oss_cloud.Pricing.{PricingPolicy}
use managed_oss_cloud.Store.{Store}
use managed_oss_cloud.Store.Records.{Installation, CloneRecord}
use managed_oss_cloud.Installations.{expire_holds}
use managed_oss_cloud.Installations.Clones.{
  clone_record, job_key, CreateApplicationCloneInput, ApplicationCloneResult, clone_key,
  key_is_short, job_of, replay_clone, write_clone, clone_checked, check_clone, new_clone,
  create_application_clone,
}

-- The request, with another identifier drawn for its application.
abbrev pub redrawn : String → CreateApplicationCloneInput → CreateApplicationCloneInput
redrawn id input = record input { app = record input.app { application_instance_id = id } }

-- The answer is the application of the first answer, as a replay.
abbrev pub IsReplay :
    ApplicationCloneResult → Store → Result ApplicationCloneResult × Store → Type 0
IsReplay answer after outcome =
    (again : ApplicationCloneResult) × (outcome ≡ (returned again, after))
    × (again.application ≡ answer.application)
    × (again.replayed ≡ true)

-- What a store must hold for a replay.
abbrev IsBound : String → String → ApplicationCloneResult → Store → Type 0
IsBound key request_hash answer store =
    (bound : CloneRecord) × (get store.clone_idempotency key ≡ some bound)
    × (bound.request_hash ≡ request_hash)
    × (get store.applications bound.application_id ≡ some answer.application)

write_clone-IsBound :
    (now : ℕ) (job_id request_hash : String) (input : CreateApplicationCloneInput)
    (installation : Installation) (worker : Option String) (store : Store)
    → let written = write_clone now job_id request_hash input installation worker store in
      IsBound (clone_key input) request_hash written.0 written.1
unfolding write_clone
write_clone-IsBound now job_id request_hash input installation worker store = (
  clone_record request_hash input installation
      (job_key (write_clone now job_id request_hash input installation worker store).0.job),
  get-set_same _ (clone_key input) _,
  refl,
  get-set_same _ input.app.application_instance_id _,
)

replay_clone-answers :
    (request_hash : String) (store : Store) (bound : CloneRecord) (answer : ApplicationCloneResult)
    → replay_clone request_hash store bound ≡ returned answer
    → answer.replayed ≡ true
unfolding replay_clone
replay_clone-answers request_hash store bound answer h =
    elim (Bool-cases (str_eq bound.request_hash request_hash)) [
      | inr b ↦ cc (rw b at h)
      | inl b ↦ elim (Option-cases (get store.applications bound.application_id)) [
        | inl e ↦ cc (rw (b, e) at h)
        | inr (app, e) ↦
            ap (λ (r : ApplicationCloneResult). r.replayed) (sym (returned_inj (rw (b, e) at h)))
      ]
    ]

module _ (locale_before : String → String → Bool) (unrestricted : Bool) (ops : NumberOps)
    (policy : PricingPolicy ops.Num) where
  clone_checked-IsBound :
      (now : ℕ) (job_id request_hash : String) (input : CreateApplicationCloneInput)
      (store after : Store) (answer : ApplicationCloneResult)
      (checked : Result (Installation × Option String))
      → clone_checked locale_before unrestricted ops policy now job_id request_hash input store
          checked
        ≡ (returned answer, after)
      → IsBound (clone_key input) request_hash answer after
  unfolding clone_checked
  clone_checked-IsBound now job_id request_hash input store after answer (thrown message) h = cc
  clone_checked-IsBound now job_id request_hash input store after answer
        (returned (installation, worker)) h =
      let written = write_clone now job_id request_hash input installation worker store in
      let same : written ≡ (answer, after) = cc h in
      subst (λ (w : ApplicationCloneResult × Store). IsBound (clone_key input) request_hash w.0 w.1)
        same (write_clone-IsBound now job_id request_hash input installation worker store)

  create-IsBound :
      (now : ℕ) (job_id : String) (hash : CreateApplicationCloneInput → String)
      (input : CreateApplicationCloneInput) (store after : Store) (answer : ApplicationCloneResult)
      → create_application_clone locale_before unrestricted ops policy now job_id hash input store
        ≡ (returned answer, after)
      → answer.replayed ≡ false
      → (key_is_short (trim input.idempotency_key) ≡ false)
        × IsBound (clone_key input) (hash input) answer after
  unfolding create_application_clone new_clone
  create-IsBound now job_id hash input store after answer h first =
      elim (Bool-cases (key_is_short (trim input.idempotency_key))) [
        | inl b ↦ cc (rw b at h)
        | inr b ↦ elim (Option-cases (get store.clone_idempotency (clone_key input))) [
          | inr (bound, e) ↦
              let replayed : replay_clone (hash input) store bound ≡ returned answer =
                ap (λ (r : Result ApplicationCloneResult × Store). r.0) (rw (b, e) at h) in
              cc (replay_clone-answers (hash input) store bound answer replayed, first)
          | inl e ↦ (
            b,
            clone_checked-IsBound now job_id (hash input) input (expire_holds now store) after
                answer
                (check_clone locale_before unrestricted ops policy now input
                  (expire_holds now store))
                (rw (b, e) at h),
          )
        ]
      ]

  -- Once a clone has been made, the same request, sent again at whatever time and with whatever
  -- identifiers drawn, is answered with the same application as a replay, and changes nothing,
  -- provided that the hash of a request does not depend on the identifier that is drawn.
  pub clone_replayed :
      (now : ℕ) (job_id : String) (hash : CreateApplicationCloneInput → String)
      (input : CreateApplicationCloneInput) (store after : Store) (answer : ApplicationCloneResult)
      (later : ℕ) (job_id' id : String)
      → create_application_clone locale_before unrestricted ops policy now job_id hash input store
        ≡ (returned answer, after)
      → answer.replayed ≡ false
      → hash (redrawn id input) ≡ hash input
      → IsReplay answer after (
          create_application_clone locale_before unrestricted ops policy later job_id' hash
            (redrawn id input)
            after)
  unfolding create_application_clone replay_clone
  clone_replayed now job_id hash input store after answer later job_id' id h first same =
      let (long, (bound, e, hashed, there)) =
        create-IsBound now job_id hash input store after answer h first in
      let agreed : str_eq bound.request_hash (hash (redrawn id input)) ≡ true =
        ap (str_eq bound.request_hash) (same ∙ sym hashed) ∙ eq_refl bound.request_hash in
      rw (long, e, agreed, there)
        (
          record {
            application = answer.application;
            job = job_of after bound.job_id;
            replayed = true;
          },
          refl,
          refl,
          refl,
        )
