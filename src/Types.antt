-- ===== src/Types.antt =====
-- shared/types.ts: the records that the control plane's modules exchange. An optional field is an
-- `Option`, a timestamp is its instant in milliseconds, and the memory and the processor of a plan
-- are numbers that need not be whole.
use managed_oss_cloud.Common.{ℕ, String, Bool, List, Option}
use managed_oss_cloud.Visibility.Values.{Fields}

pub record CatalogApp : Type 0 where
  pub id : String
  pub memory_budget_mb : ℕ
  pub cpu_budget_millis : ℕ
  pub storage_budget_gb : ℕ
  pub bundle_eligible : Bool

pub record ComputePlan (Num : Type 0) : Type 0 where
  pub id : String
  pub label : String
  pub memory_mb : Num
  pub cpu : Num
  pub storage_gb : ℕ
  pub max_services : ℕ
  pub infrastructure_monthly_cents : ℕ
  pub monthly_cents : ℕ

pub record Quote (Num : Type 0) : Type 0 where
  pub selected_apps : List CatalogApp
  pub requested_memory_mb : ℕ
  pub requested_cpu_millis : ℕ
  pub requested_storage_gb : ℕ
  pub reserved_memory_mb : ℕ
  pub compatible_with_bundle : Bool
  pub recommended_plan : Option (ComputePlan Num)
  pub infrastructure_monthly_cents : ℕ
  pub platform_fee_cents : ℕ
  pub total_monthly_cents : ℕ
  pub requires_split : Bool
  pub explanation : String

pub data InstallationState : Type 0 where
  planned awaiting_payment provisioning live failed suspended : InstallationState

pub data ApplicationState : Type 0 where
  queued provisioning live failed stopped : ApplicationState

-- The two entries of the DNS, whose types are fixed.
pub record OwnershipInstructions : Type 0 where
  pub claim_id : String
  pub txt_name : String
  pub txt_value : String
  pub cname_name : String
  pub cname_value : String

pub data VerificationStatus : Type 0 where
  awaiting_dns verified active failed : VerificationStatus

pub record CustomDomain : Type 0 where
  pub id : String
  pub application_instance_id : String
  pub domain : String
  pub verification_status : VerificationStatus
  pub ownership : OwnershipInstructions
  pub last_checked_at : Option ℕ

pub data JobAction : Type 0 where
  install upgrade stop start uninstall reload_routes backup restore : JobAction

pub data JobStatus : Type 0 where
  queued running succeeded failed : JobStatus

pub record ProvisioningJob : Type 0 where
  pub id : String
  pub installation_id : String
  pub action : JobAction
  pub status : JobStatus
  pub attempts : ℕ
  pub payload : Fields
  pub worker_node_id : Option String
  pub lease_expires_at : Option ℕ
  pub created_at : ℕ

pub record GatewayRoute : Type 0 where
  pub hostname : String
  pub upstream_host : String
  pub ownership : Option OwnershipInstructions
  pub worker_private_address : String
  pub worker_node_id : String
  pub application_instance_id : String
  pub app_id : String

pub record WorkerNodeRoute : Type 0 where
  pub application_instance_id : String
  pub hostname : String
  pub container_project : String
  pub app_id : String

-- Its status is always `ready`.
pub record BackupRecord : Type 0 where
  pub id : String
  pub installation_id : String
  pub application_instance_id : String
  pub object_name : String
  pub size_bytes : ℕ
  pub created_at : ℕ

pub data WorkerStatus : Type 0 where
  ready draining offline : WorkerStatus

pub record WorkerNode : Type 0 where
  pub id : String
  pub name : String
  pub status : WorkerStatus
  pub private_address : String
  pub machine_type : String
  pub capacity_memory_mb : ℕ
  pub capacity_cpu_millis : ℕ
  pub capacity_storage_gb : ℕ
  pub system_reserve_memory_mb : ℕ
  pub reserved_memory_mb : ℕ
  pub reserved_cpu_millis : ℕ
  pub reserved_storage_gb : ℕ
  pub last_heartbeat_at : ℕ
  pub created_at : ℕ
  pub updated_at : ℕ

abbrev pub is_ready : WorkerStatus → Bool
is_ready ready = Bool.true
is_ready _ = Bool.false
