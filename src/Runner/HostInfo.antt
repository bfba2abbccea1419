-- ===== src/Runner/HostInfo.antt =====
-- `host_info` of ci-runner/src/main.rs: what a runner tells of its host, from the texts of /proc and
-- /sys. The arithmetic on floating point numbers is a parameter.
use Prim.Native.String.{◌++◌ as append}
use text.Mathlib.Text.{starts_with}
use build_o_tron.Base.{
  ℕ, String, ◌||◌, Option, none, some, List, Outcome, ok, panic, select, first?, last?, get_elem?,
  length, ◌=?◌, ◌==◌, [], ◌∷◌, if◌then◌else◌, split, trim, replace, parse_u64,
}
use build_o_tron.Core.Protocol.{CpuInfo, MemoryInfo, EnvInfo, HostInfo}
use build_o_tron.Native.Notifier.{and_then}

-- What the host shows: its files, an override of the model's name, the constants of `std::env`, the
-- 4096 bytes that `gethostname` fills (`none`: it fails), the reading of UTF-8, and megahertz read as a float and counted in kilohertz.
pub record Machine : Type 0 where
  pub read_to_string : String → Option String
  pub model_name_override : Option String
  pub arch : String
  pub family : String
  pub os : String
  pub gethostname : Option (List ℕ)
  pub utf8 : List ℕ → Option String
  pub khz_of_mhz : String → Option ℕ

abbrev pub or_panic : {A : Type 0} → String → Option A → Outcome A
or_panic why none = panic why
or_panic why (some a) = ok a

abbrev unwrap_none : String
unwrap_none = "called `Option::unwrap()` on a `None` value"

abbrev unwrap_err : String
unwrap_err = "called `Result::unwrap()` on an `Err` value"

-- What stands behind the last colon of a line.
abbrev pub value_of : String → Option String
value_of line = elim (last? (split ":" line)) [ none ↦ none | some part ↦ some (trim part) ]

unfoldable pub try_find_line : List String → String → Option String
try_find_line lines prefix = elim (first? (λ line. starts_with line prefix) lines) [
  | none ↦ none
  | some line ↦ value_of line
]

unfoldable pub find_line : List String → String → Outcome String
unfolding try_find_line
find_line lines prefix = or_panic (append prefix " line is present") (try_find_line lines prefix)

abbrev max_freq_path : String
max_freq_path = "/sys/devices/system/cpu/cpu0/cpufreq/cpuinfo_max_freq"

module _ (m : Machine) where
  abbrev pub lines_of : String → Outcome (List String)
  lines_of path = elim (m.read_to_string path) [
    | none ↦ panic unwrap_err
    | some content ↦ ok (split "\n" content)
  ]

  abbrev mhz_line : ℕ → List String → Outcome ℕ
  mhz_line cpu lines =
      and_then
        (or_panic "could not get cpu freq either from cpufreq or /proc/cpuinfo?"
          (get_elem? (select (λ line. starts_with line "cpu MHz") lines) cpu))
        λ line.
          and_then (or_panic unwrap_none (get_elem? (split ":" line) 1))
            λ mhz. or_panic unwrap_err (m.khz_of_mhz (trim mhz))

  -- `try_finding_cpu_freq`
  unfoldable pub try_finding_cpu_freq : ℕ → Outcome ℕ
  try_finding_cpu_freq cpu = elim (m.read_to_string max_freq_path) [
    | some freq ↦ or_panic unwrap_err (parse_u64 (trim freq))
    | none ↦ and_then (lines_of "/proc/cpuinfo") (mhz_line cpu)
  ]

  abbrev pub with_prefix : String → List String → ℕ
  with_prefix prefix lines = length (select (λ line. starts_with line prefix) lines)

  -- The arm "x86" | "x86_64", from the lines of /proc/cpuinfo.
  unfoldable pub x86_info : List String → Outcome CpuInfo
  unfolding find_line try_finding_cpu_freq
  x86_info lines = and_then (find_line lines "model name") λ model_name.
      and_then (find_line lines "vendor_id") λ vendor_id.
        and_then (find_line lines "cpu family") λ family.
          and_then (find_line lines "model\t") λ model.
            and_then (find_line lines "microcode") λ microcode.
              and_then (try_finding_cpu_freq 0) λ max_freq. ok (record {
                model_name = model_name;
                microcode = microcode;
                cores = with_prefix "model name" lines;
                vendor_id = vendor_id;
                family = family;
                model = model;
                max_freq = max_freq;
              })

  abbrev device_tree_name : Option String → String
  device_tree_name none = "unknown"
  device_tree_name (some name) = replace "\0" ";" name

  -- The name of an aarch64 model.
  unfoldable pub model_name_of : String
  model_name_of = elim m.model_name_override [
    | some name ↦ name
    | none ↦ device_tree_name (m.read_to_string "/proc/device-tree/compatible")
  ]

  unfoldable pub vendor_name : String → String
  vendor_name id =
      if id =? "0x41"
      then "Arm Limited"
      else if id =? "0x42"
      then "Broadcom Corporation"
      else if id =? "0x43"
      then "Cavium Inc"
      else if id =? "0x44"
      then "Digital Equipment Corporation"
      else if id =? "0x46"
      then "Fujitsu Ltd"
      else if id =? "0x49"
      then "Infineon Technologies AG"
      else if id =? "0x4d"
      then "Motorola"
      else if id =? "0x4e"
      then "NVIDIA Corporation"
      else if id =? "0x50"
      then "Applied Micro Circuits Corporation"
      else if id =? "0x51"
      then "Qualcomm Inc"
      else if id =? "0x56"
      then "Marvell International Ltd"
      else if id =? "0x69"
      then "Intel Corporation"
      else if id =? "0xc0"
      then "Ampere Computing"
      else append "unknown aarch64 vendor " id

  -- The arm "aarch64".
  unfoldable pub aarch64_info : List String → Outcome CpuInfo
  unfolding find_line model_name_of vendor_name
  aarch64_info lines = and_then (find_line lines "CPU implementer") λ vendor_id.
      and_then (find_line lines "CPU architecture") λ family.
        and_then (find_line lines "CPU part") λ model.
          and_then (or_panic unwrap_err (m.read_to_string max_freq_path)) λ freq.
            and_then (or_panic unwrap_err (parse_u64 (trim freq))) λ max_freq. ok (record {
              model_name = model_name_of;
              microcode = "";
              cores = with_prefix "processor" lines;
              vendor_id = vendor_name vendor_id;
              family = family;
              model = model;
              max_freq = max_freq;
            })

  unfoldable pub collect_cpu_info : Outcome CpuInfo
  unfolding x86_info aarch64_info
  collect_cpu_info =
      if m.arch =? "x86" || m.arch =? "x86_64"
      then and_then (lines_of "/proc/cpuinfo") x86_info
      else if m.arch =? "aarch64"
      then and_then (lines_of "/proc/cpuinfo") aarch64_info
      else panic (append (append "dunno how to find cpu info for " m.arch) ", panik")

  abbrev line_value : ℕ → List String → Outcome String
  line_value i lines =
      and_then (or_panic "index out of bounds" (get_elem? lines i))
        λ line. or_panic unwrap_none (value_of line)

  unfoldable pub collect_mem_info : Outcome MemoryInfo
  collect_mem_info = and_then (lines_of "/proc/meminfo") λ lines.
      and_then (line_value 0 lines) λ total.
        and_then (line_value 2 lines)
          λ available. ok (record { total = total; available = available })

  unfoldable pub collect_env_info : EnvInfo
  collect_env_info = record { arch = m.arch; family = m.family; os = m.os }

  -- The bytes before the first zero, if there is one.
  abbrev before_nul : List ℕ → Option (List ℕ)
  before_nul [] = none
  before_nul (b ∷ bytes) =
      if b == 0 then some [] else elim (before_nul bytes) [ none ↦ none | some l ↦ some (b ∷ l) ]

  unfoldable pub hostname : Outcome String
  hostname = and_then (or_panic "gethostname failed" m.gethostname) λ bytes.
      and_then (or_panic "hostname is null-terminated" (before_nul bytes))
        λ name. or_panic "is utf-8" (m.utf8 name)

  unfoldable pub collect_host_info : Outcome HostInfo
  unfolding collect_cpu_info collect_mem_info hostname collect_env_info
  collect_host_info = and_then collect_cpu_info λ cpu. and_then collect_mem_info λ memory.
      and_then hostname λ name. ok (record {
        hostname = name;
        cpu_info = cpu;
        memory_info = memory;
        env_info = collect_env_info;
      })
