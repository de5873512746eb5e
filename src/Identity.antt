-- ===== src/Identity.antt =====
-- internal/auth/device.go: the identity of a device, in a file. `unmarshal` and `marshal` are
-- encoding/json, on texts of the type `T`; the random digits of a new identity are arguments.
pub mod Reloading
use Prim.Native.String.{◌++◌ as append}
use beacon_desk.Prelude.{
  String, Bool, not, ◌&&◌, ◌||◌, Option, none, some, ◌==◌, if◌then◌else◌, trim_space,
}
use beacon_desk.Files.{Disk, FileError, cannot_read, cannot_decode, write_file}

pub record DeviceIdentity : Type 0 where
  pub device_id : String
  pub device_secret : String
  pub device_name : String

pub data IdentityError : Type 0 where
  path_required : IdentityError
  missing_fields : IdentityError
  file : FileError → IdentityError

-- `identity, nil`, or the error; a new identity whose file cannot be written comes with its error.
pub data Identified : Type 0 where
  identified : DeviceIdentity → Identified
  unidentified : IdentityError → Identified
  unsaved : DeviceIdentity → IdentityError → Identified

abbrev pub new_identity : String → String → String → DeviceIdentity
new_identity id_digits secret_digits name = record {
  device_id = append "dev_" id_digits;
  device_secret = secret_digits;
  device_name = if trim_space name == "" then "BeaconDesk-device" else name;
}

-- Is this an identity at all?
abbrev pub is_whole : DeviceIdentity → Bool
is_whole identity = not (identity.device_id == "" || identity.device_secret == "")

module _ {T : Type 0} (unmarshal : T → Option DeviceIdentity) (marshal : DeviceIdentity → T) where
  -- `SaveDeviceIdentity`.
  unfoldable pub save_device_identity : DeviceIdentity → Disk T → Disk T × Option FileError
  unfolding write_file
  save_device_identity identity d = write_file d (marshal identity)

  -- An identity from the file, under the name that is asked for.
  unfoldable pub rename_identity : DeviceIdentity → String → Disk T → Disk T × Identified
  unfolding save_device_identity
  rename_identity identity name d =
      let renamed = record identity { device_name = name } in
      let saved = save_device_identity renamed d in
      if not (is_whole identity)
      then (d, unidentified missing_fields)
      else if not (name == "") && not (identity.device_name == name)
      then (saved.0, elim saved.1 [ none ↦ identified renamed | some e ↦ unidentified (file e) ])
      else (d, identified identity)

  unfoldable pub create_identity : DeviceIdentity → Disk T → Disk T × Identified
  unfolding save_device_identity
  create_identity identity d =
      let saved = save_device_identity identity d in
      (saved.0, elim saved.1 [ none ↦ identified identity | some e ↦ unsaved identity (file e) ])

  -- `LoadOrCreateDeviceIdentity`.
  unfoldable pub load_or_create_device_identity :
      String → String → String → String → Disk T → Disk T × Identified
  unfolding rename_identity create_identity
  load_or_create_device_identity path name id_digits secret_digits d =
      if path == "" then (d, unidentified path_required) else elim d.contents [
        | none ↦ create_identity (new_identity id_digits secret_digits name) d
        | some text ↦
            if not d.readable then (d, unidentified (file cannot_read)) else elim (unmarshal text) [
              | none ↦ (d, unidentified (file cannot_decode))
              | some identity ↦ rename_identity identity name d
            ]
      ]
