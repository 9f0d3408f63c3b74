-- ===== src/Spec/Sandbox.antt =====
-- The specification of a sandbox (src/ucloud_sandboxes_sdk/client.py: `SandboxSpec`,
-- `_DataclassPayload`). Its checks of types are those of the model's types.
use ucloud_sandboxes_sdk.Prelude.{
  String, Bool, true, not, Option, none, some, List, [], ◌∷◌, map, ◌==◌, ◌&&◌, ◌||◌, ℤ, is_empty,
  if◌then◌else◌,
}
use ucloud_sandboxes_sdk.Json.{
  Json, Fields, null, bool, int, real, str, arr, obj, end, field, of_list,
}
use ucloud_sandboxes_sdk.Errors.{Exception, value_error, invalid_argument, Result, ok, ◌>>◌, check}
use ucloud_sandboxes_sdk.Spec.Network.{Policy, policy_to_dict}

pub record Security : Type 0 where
  pub user : Option String
  pub cap_drop : List String
  pub cap_add : List String
  pub no_new_privileges : Bool
  pub pids_limit : Option ℤ
  pub read_only_rootfs : Bool
  pub init : Bool

pub record Filesystem : Type 0 where
  pub enforce_disk_quota : Bool
  pub workspace_path : String
  pub tmpfs_mb : ℤ
  pub run_tmpfs_mb : ℤ

pub record LinuxHost : Type 0 where
  pub enable_cron : Bool
  pub enable_sshd : Bool
  pub keep_alive : Bool
  pub writable_paths : List String

pub record Ssh : Type 0 where
  pub enabled : Bool
  pub user : String
  pub host : String
  pub host_port : Option ℤ
  pub container_port : ℤ
  pub authorized_keys : List String

-- `image` is the image's reference.
pub record Spec : Type 0 where
  pub id : String
  pub image : String
  pub command : List String
  pub env : List (String × String)
  pub working_dir : Option String
  pub memory_mb : Option ℤ
  -- in millionths
  pub cpus : Option ℤ
  pub disk_mb : Option ℤ
  pub network : String
  pub network_policy : Policy
  pub ttl_seconds : Option ℤ
  pub ssh : Ssh
  pub security : Option Security
  pub filesystem : Option Filesystem
  pub labels : List (String × String)
  pub parkable : Bool
  pub managed_process : Bool
  pub profile : String
  pub linux_host : LinuxHost
  pub toolkits : List String

abbrev bad_spec : String → Exception
bad_spec what = value_error (invalid_argument what)

-- `__post_init__`.
unfoldable pub check_spec : Spec → Result Exception (Unit {0})
check_spec s = do
  check (s.profile == "container" || s.profile == "linux_host") (bad_spec "profile")
  check (not (s.network_policy.egress == "relay" && (not (s.network == "bridge") || s.ssh.enabled)))
      (bad_spec "network_policy")

abbrev pub or_null : {A : Type 0} → (A → Json) → Option A → Json
or_null f none = null
or_null f (some a) = f a

abbrev pub text_list : List String → Json
text_list texts = arr (of_list (map str texts))

abbrev pub text_dict : List (String × String) → Json
text_dict entries = obj (go entries)
  where
    go : List (String × String) → Fields
    go [] = end
    go ((k, v) ∷ rest) = field k (str v) (go rest)

unfoldable pub security_dict : Security → Json
security_dict s = obj (
    field "user" (or_null str s.user) (
      field "cap_drop" (text_list s.cap_drop) (
        field "cap_add" (text_list s.cap_add) (
          field "no_new_privileges" (bool s.no_new_privileges) (
            field "pids_limit" (or_null int s.pids_limit) (
              field "read_only_rootfs" (bool s.read_only_rootfs)
                (field "init" (bool s.init) end)))))))

unfoldable pub filesystem_dict : Filesystem → Json
filesystem_dict f = obj (
    field "enforce_disk_quota" (bool f.enforce_disk_quota) (
      field "workspace_path" (str f.workspace_path)
        (field "tmpfs_mb" (int f.tmpfs_mb) (field "run_tmpfs_mb" (int f.run_tmpfs_mb) end))))

unfoldable pub linux_host_dict : LinuxHost → Json
linux_host_dict l = obj (
    field "enable_cron" (bool l.enable_cron) (
      field "enable_sshd" (bool l.enable_sshd) (
        field "keep_alive" (bool l.keep_alive)
          (field "writable_paths" (text_list l.writable_paths) end))))

unfoldable pub ssh_dict : Ssh → Json
ssh_dict s = obj (
    field "enabled" (bool s.enabled) (
      field "user" (str s.user) (
        field "host" (str s.host) (
          field "host_port" (or_null int s.host_port) (
            field "container_port" (int s.container_port)
              (field "authorized_keys" (text_list s.authorized_keys) end))))))

-- A key that `payload.pop` takes away unless it is wanted.
abbrev pub field_if : Bool → String → Json → Fields → Fields
field_if b key v fs = if b then field key v fs else fs

-- `vars(self)` with its updates, in two halves.
unfoldable pub later_fields : Spec → Fields
later_fields s = field "ttl_seconds" (or_null int s.ttl_seconds) (
    field "ssh" (ssh_dict s.ssh) (
      field "security" (or_null security_dict s.security) (
        field "filesystem" (or_null filesystem_dict s.filesystem) (
          field "labels" (text_dict s.labels) (
            field_if s.parkable "parkable" (bool true) (
              field_if s.managed_process "managed_process" (bool true) (
                field "profile" (str s.profile) (
                  field "linux_host" (linux_host_dict s.linux_host) (
                    field_if (not (is_empty s.toolkits)) "toolkits" (text_list s.toolkits)
                      end)))))))))

unfoldable pub spec_fields : Spec → Fields
unfolding later_fields
spec_fields s = field "id" (str s.id) (
    field "image" (str s.image) (
      field "command" (text_list s.command) (
        field "env" (text_dict s.env) (
          field "working_dir" (or_null str s.working_dir) (
            field "memory_mb" (or_null int s.memory_mb) (
              field "cpus" (or_null real s.cpus) (
                field "disk_mb" (or_null int s.disk_mb) (
                  field "network" (str s.network) (
                    field_if (not (s.network_policy.egress == "direct")) "network_policy"
                      (obj (policy_to_dict s.network_policy)) (later_fields s))))))))))

-- `to_dict`.
unfoldable pub spec_to_dict : Spec → Result Exception Fields
unfolding spec_fields
spec_to_dict s = do
  check (not (s.managed_process && not s.parkable)) (bad_spec "managed_process")
  check (not (s.managed_process && not (is_empty s.command))) (bad_spec "managed_process")
  check (not (s.managed_process && not (s.profile == "container"))) (bad_spec "managed_process")
  ok (spec_fields s)
