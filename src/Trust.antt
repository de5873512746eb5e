-- ===== src/Trust.antt =====
-- internal/trust/store.go: the devices that a user has chosen to trust, in a file.
use beacon_desk.Prelude.{
  ℕ, ◌≡◌, ◌≢◌, refl, ap, ◌∙◌, String, Bool, true, false, not, ◌||◌, Option, none, some, List, [],
  ◌∷◌, ◌++◌, ◌==◌, eq_iff, eq_refl, arith, if◌then◌else◌,
}
use beacon_desk.Prelude.Int.{ℤ, pos, ltb_ℤ}
use beacon_desk.Files.{
  Disk, FileError, Loaded, loaded, failed, cannot_read, cannot_decode, cannot_write, read_entries,
  write_file,
}
pub mod Trusting

pub record Device : Type 0 where
  pub device_id : String
  pub mode : String
  pub added_at : ℤ
  pub last_used_at : ℤ

-- The errors of the store's operations.
pub data StoreError : Type 0 where
  device_id_required : StoreError
  file : FileError → StoreError

-- The device of this id, in the first entry that has it, is set to `f` of itself.
unfoldable pub change_first : String → (Device → Device) → List Device → List Device
change_first id f [] = []
change_first id f (x ∷ xs) =
    let rest = change_first id f xs in if x.device_id == id then f x ∷ xs else x ∷ rest

unfoldable pub has_device : String → List Device → Bool
has_device id [] = false
has_device id (x ∷ xs) = x.device_id == id || has_device id xs

-- What `Remember` makes of the devices.
unfoldable pub remembered : String → String → ℤ → List Device → List Device
unfolding change_first has_device
remembered id mode now devices =
    let used = λ (x : Device). record x { mode = mode; last_used_at = now } in
    let device : Device = record {
      device_id = id;
      mode = mode;
      added_at = now;
      last_used_at = now;
    } in
    if has_device id devices then change_first id used devices else devices ++ device ∷ []

-- The loop of `Revoke`.
unfoldable pub without_device : String → List Device → List Device
without_device id [] = []
without_device id (x ∷ xs) =
    let rest = without_device id xs in if x.device_id == id then rest else x ∷ rest

unfoldable pub insert_device : Device → List Device → List Device
insert_device a [] = a ∷ []
insert_device a (b ∷ rest) =
    let later = insert_device a rest in
    if ltb_ℤ a.last_used_at b.last_used_at then b ∷ later else a ∷ b ∷ rest

-- `sort.Slice`, last used first.
unfoldable pub sort_devices : List Device → List Device
unfolding insert_device
sort_devices [] = []
sort_devices (a ∷ rest) = insert_device a (sort_devices rest)

-- `marshal` and `unmarshal` are `encoding/json` on the devices of the file. The store is its path.
module _ {T : Type 0} (unmarshal : T → Option (List Device)) (marshal : List Device → T) where
  unfoldable pub load : String → Disk T → Loaded Device
  unfolding read_entries
  load path d = if path == "" then loaded [] else read_entries unmarshal d

  unfoldable pub save : String → List Device → Disk T → Disk T × Option StoreError
  unfolding write_file
  save path devices d =
      let written = write_file d (marshal devices) in
      if path == ""
      then (d, none)
      else (written.0, elim written.1 [ none ↦ none | some e ↦ some (file e) ])

  -- An operation that changes the devices that the file holds.
  unfoldable pub save_changed :
      String → (List Device → List Device) → Disk T → Disk T × Option StoreError
  unfolding load save
  save_changed path f d = elim (load path d) [
    | failed e ↦ (d, some (file e))
    | loaded devices ↦ save path (f devices) d
  ]

  unfoldable pub remember : String → String → String → ℤ → Disk T → Disk T × Option StoreError
  unfolding save_changed remembered
  remember path id mode now d =
      if id == ""
      then (d, some device_id_required)
      else save_changed path (remembered id mode now) d

  -- `Touch` writes only where the device is known.
  unfoldable pub touch : String → String → ℤ → Disk T → Disk T × Option StoreError
  unfolding load save change_first has_device
  touch path id now d = elim (load path d) [
    | failed e ↦ (d, some (file e))
    | loaded devices ↦
        if has_device id devices
        then save path (change_first id (λ x. record x { last_used_at = now }) devices) d
        else (d, none)
  ]

  unfoldable pub revoke : String → String → Disk T → Disk T × Option StoreError
  unfolding save_changed without_device
  revoke path id d = save_changed path (without_device id) d

  -- `List`.
  unfoldable pub list : String → Disk T → Loaded Device
  unfolding load sort_devices
  list path d = elim (load path d) [
    | failed e ↦ failed e
    | loaded devices ↦ loaded (sort_devices devices)
  ]

  unfoldable pub is_trusted : String → String → Disk T → Bool
  unfolding list has_device
  is_trusted path id d = elim (list path d) [
    | failed e ↦ false
    | loaded devices ↦ has_device id devices
  ]
