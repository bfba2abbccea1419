-- ===== src/Tests/HostInfo.antt =====
-- The description of a host, from the texts of a machine.
use build_o_tron.Base.{
  ◌≡◌, refl, ℕ, String, Option, none, some, List, ok, Outcome, ◌=?◌, if◌then◌else◌, [], ◌∷◌, length,
  ◌==◌,
}
use build_o_tron.Runner.HostInfo.{Machine, collect_cpu_info, hostname}

abbrev cpuinfo : String
cpuinfo =
    "processor\t: 0\nvendor_id\t: GenuineIntel\ncpu family\t: 6\nmodel\t\t: 85\nmodel name\t: Xeon\nmicrocode\t: 0x1\n\nprocessor\t: 1\nmodel name\t: Xeon\n"

abbrev xeon : Machine
xeon = record {
  read_to_string = λ path. if path =? "/proc/cpuinfo" then some cpuinfo else some "3500000\n";
  model_name_override = none;
  arch = "x86_64";
  family = "unix";
  os = "linux";
  gethostname = some (98 ∷ 111 ∷ 120 ∷ 0 ∷ 0 ∷ []);
  utf8 = λ bytes. if length bytes == 3 then some "box" else none;
  khz_of_mhz = λ s. none;
}

collect_cpu_info_lem :
    collect_cpu_info xeon
    ≡ ok (record {
      model_name = "Xeon";
      microcode = "0x1";
      cores = 2;
      vendor_id = "GenuineIntel";
      family = "6";
      model = "85";
      max_freq = 3500000;
    })
unfolding collect_cpu_info build_o_tron.Base.split build_o_tron.Base.parse_u64
    build_o_tron.Base.trim
collect_cpu_info_lem = refl

hostname_lem : hostname xeon ≡ ok "box"
unfolding hostname
hostname_lem = refl
