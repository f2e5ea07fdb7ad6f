-- ===== src/SystemInfo.antt =====
-- `SystemInfoCollector` of src/system_info.cpp and include/system_info.hpp. The files, the
-- environment and the results of the system calls are arguments.
pub mod Strings
pub mod Release
pub mod Cores
pub mod Graphics
pub mod Session
pub mod Uptime
mod Tests
use smooth_demon.Prelude.{ℕ, ◌%◌, ◌^◌, List, Option, none, some}
use smooth_demon.Prelude.Int.{ℤ, pos, negsuc}
use smooth_demon.Text.{Text, File, codes}
use Release.{parse_os_name, parse_cpu_model}
use Cores.{parse_cpu_physical_cores}
use Graphics.{Card, parse_gpu_info}
use Session.{Environment, display_protocol_of, compositor_of}

pub record SystemMetadata : Type 0 where
  pub os_name : Text
  pub kernel_version : Text
  pub architecture : Text
  pub cpu_model : Text
  pub cpu_cores_physical : ℕ
  pub cpu_cores_logical : ℕ
  pub gpu_model : Text
  pub gpu_pci_id : Text
  pub driver_name : Text
  pub display_protocol : Text
  pub compositor : Text

-- What the collector reads: `uname` with release and machine, the two os-release files,
-- /proc/cpuinfo, the number of processors and the entries of /sys/class/drm.
pub record Host : Type 0 where
  pub uname : Option (Text × Text)
  pub etc_os_release : File
  pub lib_os_release : File
  pub cpuinfo : File
  pub nproc : ℤ
  pub drm : Option (List Card)
  pub getenv : Environment

or_unknown : Option (Text × Text) → Text × Text
or_unknown none = (codes "unknown", codes "unknown")
or_unknown (some names) = names

-- `static_cast<u32>`, and 0 where the count is not positive.
logical_cores : ℤ → ℕ
logical_cores (pos n) = n % 2 ^ 32
logical_cores (negsuc n) = 0

pub collect : Host → SystemMetadata
unfolding or_unknown logical_cores
collect h =
    let (release, machine) = or_unknown h.uname in
    let (model, pci_id) = parse_gpu_info h.drm in
    record {
      os_name = parse_os_name h.etc_os_release h.lib_os_release;
      kernel_version = release;
      architecture = machine;
      cpu_model = parse_cpu_model h.cpuinfo;
      cpu_cores_physical = parse_cpu_physical_cores h.cpuinfo;
      cpu_cores_logical = logical_cores h.nproc;
      gpu_model = model;
      gpu_pci_id = pci_id;
      driver_name = codes "i915";
      display_protocol = display_protocol_of h.getenv;
      compositor = compositor_of h.getenv;
    }
