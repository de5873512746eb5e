-- ===== src/Trust/Trusting.antt =====
-- internal/trust/store.go: which devices are trusted after each operation of the store.
use beacon_desk.Prelude.{
  ◌≡◌, ◌≢◌, refl, ◌∙◌, String, Bool, true, false, not, ◌&&◌, ◌||◌, Option, none, some, List, [],
  ◌∷◌, ◌++◌, ◌==◌, eq_iff, arith, Bool-cases, inl, inr,
}
use beacon_desk.Prelude.Int.{ℤ}
use beacon_desk.Files.{Disk, Loaded, loaded, failed, Loaded-cases, read_entries, write_file}
use beacon_desk.Trust.{
  Device, change_first, has_device, remembered, without_device, insert_device, sort_devices, load,
  save, save_changed, remember, touch, revoke, list, is_trusted,
}

has_device-insert :
    (id : String) (a : Device) (l : List Device)
    → has_device id (insert_device a l) ≡ (a.device_id == id || has_device id l)
unfolding has_device insert_device
has_device-insert id a [] = refl
has_device-insert id a (b ∷ l) = ground (arith, has_device-insert id a l)

has_device-sort : (id : String) (l : List Device) → has_device id (sort_devices l) ≡ has_device id l
unfolding has_device sort_devices
has_device-sort id [] = refl
has_device-sort id (a ∷ l) =
    has_device-insert id a (sort_devices l) ∙ ground (arith, has_device-sort id l)

has_device-change :
    (j id : String) (f : Device → Device) (l : List Device)
    → ((x : Device) → (f x).device_id ≡ x.device_id)
    → has_device j (change_first id f l) ≡ has_device j l
unfolding has_device change_first
has_device-change j id f [] same = refl
has_device-change j id f (x ∷ l) same = ground (arith, has_device-change j id f l same, same x)

has_device-append :
    (id : String) (xs : List Device) (y : Device)
    → has_device id (xs ++ y ∷ []) ≡ (has_device id xs || y.device_id == id)
unfolding has_device
has_device-append id [] y = ground arith
has_device-append id (x ∷ xs) y = ground (arith, has_device-append id xs y)

has_device-remembered :
    (j id mode : String) (now : ℤ) (l : List Device)
    → has_device j (remembered id mode now l) ≡ (id == j || has_device j l)
unfolding remembered
has_device-remembered j id mode now l =
    let used = λ (x : Device). record x { mode = mode; last_used_at = now } in
    let device : Device = record {
      device_id = id;
      mode = mode;
      added_at = now;
      last_used_at = now;
    } in
    ground
      (arith, eq_iff id j, has_device-change j id used l (λ x. refl), has_device-append j l device)

has_device-without :
    (j id : String) (l : List Device)
    → has_device j (without_device id l) ≡ (not (id == j) && has_device j l)
unfolding has_device without_device
has_device-without j id [] = ground arith
has_device-without j id (x ∷ l) =
    ground
      (arith, has_device-without j id l, eq_iff x.device_id id, eq_iff x.device_id j, eq_iff id j)

module _ {T : Type 0} (unmarshal : T → Option (List Device)) (marshal : List Device → T)
    (faithful : (l : List Device) → unmarshal (marshal l) ≡ some l) where
  -- Is a device trusted, by what the store has loaded?
  abbrev loaded_device : String → Loaded Device → Bool
  loaded_device id (loaded devices) = has_device id devices
  loaded_device id (failed e) = false

  is_trusted-load :
      (path id : String) (d : Disk T)
      → is_trusted unmarshal marshal path id d ≡ loaded_device id (load unmarshal marshal path d)
  unfolding is_trusted list
  is_trusted-load path id d = elim (Loaded-cases (load unmarshal marshal path d)) [
    | inl (e, h) ↦ ground arith
    | inr (devices, h) ↦ ground (arith, has_device-sort id devices)
  ]

  load-save :
      (path : String) (devices : List Device) (d : Disk T)
      → path ≢ ""
      → d.readable ≡ true
      → (save unmarshal marshal path devices d).1 ≡ none
      → load unmarshal marshal path (save unmarshal marshal path devices d).0 ≡ loaded devices
  unfolding load save write_file read_entries
  load-save path devices d named readable h = ground (arith, eq_iff path "", faithful devices)

  save_changed-trusts :
      (path id : String) (f : List Device → List Device) (d : Disk T)
      → path ≢ ""
      → d.readable ≡ true
      → (save_changed unmarshal marshal path f d).1 ≡ none
      → (devices : List Device) × (load unmarshal marshal path d ≡ loaded devices)
        × (is_trusted unmarshal marshal path id (save_changed unmarshal marshal path f d).0
            ≡ has_device id (f devices))
  unfolding save_changed
  save_changed-trusts path id f d named readable h =
      elim (Loaded-cases (load unmarshal marshal path d)) [
        | inl (e, failure) ↦ absurd (ground arith)
        | inr (devices, success) ↦
            let saved = save unmarshal marshal path (f devices) d in
            let again = load-save path (f devices) d named readable in
            (devices, success, is_trusted-load path id _ ∙ ground (arith, again (ground arith)))
      ]

  -- After a successful `Remember` in a store with a file, exactly the devices trusted before and
  -- the one of this id are trusted; `marshal` loses nothing, and the file can be read.
  pub remember-is_trusted :
      (path id mode : String) (now : ℤ) (d : Disk T) (other : String)
      → path ≢ ""
      → d.readable ≡ true
      → (remember unmarshal marshal path id mode now d).1 ≡ none
      → is_trusted unmarshal marshal path other (remember unmarshal marshal path id mode now d).0
        ≡ (id == other || is_trusted unmarshal marshal path other d)
  unfolding remember
  remember-is_trusted path id mode now d other named readable h = elim (Bool-cases (id == "")) [
    | inl e ↦ absurd (ground arith)
    | inr e ↦
        let (devices, before, after) =
          save_changed-trusts path other (remembered id mode now) d named readable (ground arith) in
        ground
          (arith, is_trusted-load path other d, has_device-remembered other id mode now devices)
  ]

  -- After a successful `Revoke` in a store with a file, exactly the devices trusted before but the
  -- one of this id are trusted; `marshal` loses nothing, and the file can be read.
  pub revoke-is_trusted :
      (path id : String) (d : Disk T) (other : String)
      → path ≢ ""
      → d.readable ≡ true
      → (revoke unmarshal marshal path id d).1 ≡ none
      → is_trusted unmarshal marshal path other (revoke unmarshal marshal path id d).0
        ≡ (not (id == other) && is_trusted unmarshal marshal path other d)
  unfolding revoke
  revoke-is_trusted path id d other named readable h =
      let (devices, before, after) =
        save_changed-trusts path other (without_device id) d named readable h in
      ground (arith, is_trusted-load path other d, has_device-without other id devices)

  -- A successful `Touch` in a store with a file changes no device's trust; `marshal` loses nothing,
  -- and the file can be read.
  pub touch-is_trusted :
      (path id : String) (now : ℤ) (d : Disk T) (other : String)
      → path ≢ ""
      → d.readable ≡ true
      → (touch unmarshal marshal path id now d).1 ≡ none
      → is_trusted unmarshal marshal path other (touch unmarshal marshal path id now d).0
        ≡ is_trusted unmarshal marshal path other d
  unfolding touch
  touch-is_trusted path id now d other named readable h =
      elim (Loaded-cases (load unmarshal marshal path d)) [
        | inl (e, failure) ↦ ground arith
        | inr (devices, success) ↦
            let used = λ (x : Device). record x { last_used_at = now } in
            let changed = change_first id used devices in
            elim (Bool-cases (has_device id devices)) [
              | inl known ↦ ground (
                arith,
                load-save path changed d named readable (ground arith),
                is_trusted-load path other d,
                is_trusted-load path other (save unmarshal marshal path changed d).0,
                has_device-change other id used devices (λ x. refl),
              )
              | inr unknown ↦ ground arith
            ]
      ]
