-- ===== src/Core/Protocol.antt =====
-- ci-lib-core/src/protocol.rs: the messages between a runner and the driver.
use build_o_tron.Base.{ℕ, String, Option, List}

pub record CpuInfo : Type 0 where
  pub model_name : String
  pub microcode : String
  pub cores : ℕ  -- u32
  pub vendor_id : String
  pub family : String
  pub model : String
  pub max_freq : ℕ  -- u64, in kHz

pub record MemoryInfo : Type 0 where
  pub total : String
  pub available : String

pub record EnvInfo : Type 0 where
  pub arch : String
  pub family : String
  pub os : String

pub record HostInfo : Type 0 where
  pub hostname : String
  pub cpu_info : CpuInfo
  pub memory_info : MemoryInfo
  pub env_info : EnvInfo

pub record RequestedJob : Type 0 where
  pub commit : String
  pub remote_url : String
  pub build_token : String

-- An exit code is an `i32`; only its being 0 is read, so a number stands for it.
pub data CommandInfo : Type 0 where
  started : List String → Option String → ℕ → CommandInfo
  finished : Option ℕ → ℕ → CommandInfo

pub data TaskInfo : Type 0 where
  finished : String → TaskInfo
  interrupted : String → Option String → TaskInfo

pub data ClientProto : Type 0 where
  started : ClientProto
  artifact_create : ClientProto
  new_task : RequestedJob → ClientProto
  new_task_please : Option (List String) → HostInfo → ClientProto
  metric : String → String → ClientProto
  command : CommandInfo → ClientProto
  task_status : TaskInfo → ClientProto
  ping : ClientProto
  pong : ClientProto
