-- ===== src/Store/Records.antt =====
-- The records that `MemoryRepository` of server/repository.ts keeps, and their inputs. The text of
-- an instant is read as the instant; where an input's text may be unreadable it is an `Option`.
use managed_oss_cloud.Common.{ℕ, String, List, Option}
use managed_oss_cloud.Types.{InstallationState, ApplicationState, WorkerNode, CustomDomain}
use managed_oss_cloud.Capacity.{PlanCapacitySnapshot}
use managed_oss_cloud.Placement.{CheckoutCapacityReservation}

pub record Installation : Type 0 where
  pub id : String
  pub user_id : String
  pub app_ids : List String
  pub name : String
  pub plan : String
  pub state : InstallationState
  pub hostname : String
  pub custom_domains : List String
  pub failure_reason : Option String
  pub worker_node_id : Option String
  pub created_at : ℕ
  pub updated_at : ℕ

pub record ApplicationInstance : Type 0 where
  pub id : String
  pub installation_id : String
  pub app_id : String
  pub state : ApplicationState
  pub hostname : String
  pub container_project : String
  pub custom_domains : List CustomDomain
  pub last_health_at : Option ℕ
  pub worker_node_id : Option String
  pub memory_reservation_mb : ℕ
  pub cpu_reservation_millis : ℕ
  pub storage_reservation_gb : ℕ
  pub created_at : ℕ
  pub updated_at : ℕ

pub record StoredSubscription : Type 0 where
  pub id : String
  pub user_id : String
  pub installation_id : Option String
  pub provider_subscription_id : Option String
  pub status : String
  pub infrastructure_monthly_cents : ℕ
  pub platform_fee_monthly_cents : ℕ
  pub installation_plan : Option String

pub record StoredWorker : Type 0 where
  pub node : WorkerNode
  pub agent_token_hash : String

-- `CheckoutCapacityHoldState`, and `PlanCapacityChangeHoldState`, which has the same states
pub data HoldState : Type 0 where
  active consumed released expired : HoldState

pub record CheckoutCapacityHoldItem : Type 0 where
  pub reservation : CheckoutCapacityReservation
  pub id : String
  pub hold_id : String
  -- The worker that the allocation chose; the source asserts that there is one.
  pub worker_node_id : Option String
  pub created_at : ℕ

pub record CheckoutPlanCapacityHold : Type 0 where
  pub snapshot : PlanCapacitySnapshot
  pub hold_id : String
  pub worker_node_id : String
  pub created_at : ℕ

pub record CheckoutCapacityHold : Type 0 where
  pub id : String
  pub user_id : String
  pub installation_id : String
  pub idempotency_key : String
  pub requested_plan : String
  pub requested_app_ids : List String
  pub infrastructure_monthly_cents : ℕ
  pub platform_fee_monthly_cents : ℕ
  pub state : HoldState
  pub stripe_customer_id : Option String
  pub stripe_checkout_session_id : Option String
  pub stripe_checkout_expires_at : Option ℕ
  pub provider_subscription_id : Option String
  pub expires_at : ℕ
  pub consumed_at : Option ℕ
  pub released_at : Option ℕ
  pub expired_at : Option ℕ
  pub release_reason : Option String
  pub created_at : ℕ
  pub updated_at : ℕ
  pub items : List CheckoutCapacityHoldItem
  pub plan_capacity : CheckoutPlanCapacityHold

pub record AcquireCheckoutCapacityHoldInput : Type 0 where
  pub user_id : String
  pub installation_id : String
  pub idempotency_key : String
  pub requested_plan : String
  pub requested_app_ids : List String
  pub infrastructure_monthly_cents : ℕ
  pub platform_fee_monthly_cents : ℕ
  pub expires_at : Option ℕ
  pub reservations : List CheckoutCapacityReservation
  pub plan_capacity : PlanCapacitySnapshot

pub record AttachCheckoutSessionInput : Type 0 where
  pub hold_id : String
  pub user_id : String
  pub stripe_customer_id : String
  pub stripe_checkout_session_id : String
  pub stripe_checkout_expires_at : Option ℕ

pub data AllocationState : Type 0 where
  active suspended released : AllocationState

pub record InstallationCapacityAllocation : Type 0 where
  pub snapshot : PlanCapacitySnapshot
  pub id : String
  pub installation_id : String
  pub worker_node_id : String
  pub generation : ℕ
  pub state : AllocationState
  pub source_checkout_hold_id : Option String
  pub suspended_at : Option ℕ
  pub released_at : Option ℕ
  pub release_reason : Option String
  pub created_at : ℕ
  pub updated_at : ℕ

pub record PlanCapacityChangeHold : Type 0 where
  pub snapshot : PlanCapacitySnapshot
  pub id : String
  pub user_id : String
  pub installation_id : String
  pub allocation_id : String
  pub idempotency_key : String
  pub expected_generation : ℕ
  pub from_plan : String
  pub worker_node_id : String
  pub reserved_delta_memory_mb : ℕ
  pub reserved_delta_cpu_millis : ℕ
  pub reserved_delta_storage_gb : ℕ
  pub infrastructure_monthly_cents : ℕ
  pub platform_fee_monthly_cents : ℕ
  pub provider_subscription_id : String
  pub state : HoldState
  pub expires_at : ℕ
  pub consumed_at : Option ℕ
  pub released_at : Option ℕ
  pub expired_at : Option ℕ
  pub release_reason : Option String
  pub provider_committed_at : Option ℕ
  pub provider_confirmation_source : Option String
  pub created_at : ℕ
  pub updated_at : ℕ

pub record AcquirePlanCapacityChangeHoldInput : Type 0 where
  pub user_id : String
  pub installation_id : String
  pub idempotency_key : String
  pub requested : PlanCapacitySnapshot
  pub infrastructure_monthly_cents : ℕ
  pub platform_fee_monthly_cents : ℕ
  pub provider_subscription_id : String
  pub expires_at : Option ℕ
  pub memory_safety_reserve_mb : ℕ

pub data RecoveryState : Type 0 where
  pending_capacity fulfilled compensation_required compensated : RecoveryState

-- `compensationAction` has one value and is left out.
pub record PaidCheckoutCapacityRecovery : Type 0 where
  pub id : String
  pub stripe_event_id : String
  pub checkout_hold_id : String
  pub user_id : String
  pub installation_id : String
  pub stripe_checkout_session_id : String
  pub stripe_customer_id : String
  pub provider_subscription_id : String
  pub infrastructure_monthly_cents : ℕ
  pub platform_fee_monthly_cents : ℕ
  pub state : RecoveryState
  pub attempt_count : ℕ
  pub compensation_deadline_at : ℕ
  pub last_attempt_at : Option ℕ
  pub fulfilled_at : Option ℕ
  pub compensation_required_at : Option ℕ
  pub compensated_at : Option ℕ
  pub compensation_reference : Option String
  pub last_error : Option String
  pub created_at : ℕ
  pub updated_at : ℕ

-- what a clone request came to
pub record CloneRecord : Type 0 where
  pub user_id : String
  pub request_hash : String
  pub installation_id : String
  pub app_id : String
  pub application_id : String
  pub job_id : Option String
