-- ===== src/Identity/Reloading.antt =====
-- auth/device.go: an identity that has been loaded or made is the one of the next start.
use Prim.Native.String.{◌++◌ as append, count}
use beacon_desk.Prelude.{
  String, true, false, not, ◌&&◌, ◌≡◌, ap, inl, inr, Option, none, some, ◌==◌, trim_space, if_rule,
  option_rule, arith, eq_refl, subst, Option-cases, Bool-cases, string_test, ◌+◌,
}
use text.Mathlib.TextLemmas.{length-append}
use beacon_desk.Files.{Disk, write_file}
use beacon_desk.Identity.{
  DeviceIdentity, Identified, identified, unidentified, unsaved, new_identity, is_whole,
  save_device_identity, rename_identity, create_identity, load_or_create_device_identity,
}

module _ {T : Type 0} (unmarshal : T → Option DeviceIdentity) (marshal : DeviceIdentity → T) where
  -- The identity is in the file, under the name that was asked for, if one was.
  record Stored (name : String) (d : Disk T) (identity : DeviceIdentity) : Type 0 where
    text : T
    held : d.contents ≡ some text
    legible : d.readable ≡ true
    decoded : unmarshal text ≡ some identity
    whole : is_whole identity ≡ true
    named : (not (name == "") && not (identity.device_name == name)) ≡ false

  load-Stored :
      (path name id_digits secret_digits : String) (d : Disk T) (identity : DeviceIdentity)
      → (path == "") ≡ false
      → Stored name d identity
      → load_or_create_device_identity unmarshal marshal path name id_digits secret_digits d
        ≡ (d, identified identity)
  unfolding load_or_create_device_identity rename_identity
  load-Stored path name id_digits secret_digits d identity h stored =
      let held = stored.held in
      let legible = stored.legible in
      let decoded = stored.decoded in
      let whole = stored.whole in let named = stored.named in ground arith

  -- What an operation stores, if it gives an identity.
  Stores : String → Disk T × Identified → Type 0
  Stores name r = (identity : DeviceIdentity) → r.1 ≡ identified identity → Stored name r.0 identity

  identified_inj : {i j : DeviceIdentity} → identified i ≡ identified j → i ≡ j
  identified_inj {i} e =
      ap (λ o. elim o [ identified x ↦ x | unidentified _ ↦ i | unsaved _ _ ↦ i ]) e

  -- What was written is stored.
  written-Stored :
      (name : String) (made identity : DeviceIdentity) (d : Disk T)
      → ((i : DeviceIdentity) → unmarshal (marshal i) ≡ some i)
      → d.readable ≡ true
      → is_whole made ≡ true
      → (not (name == "") && not (made.device_name == name)) ≡ false
      → (write_file d (marshal made)).1 ≡ none
      → made ≡ identity
      → Stored name (write_file d (marshal made)).0 identity
  unfolding write_file
  written-Stored name made identity d codec readable whole named written same =
      subst (Stored name (write_file d (marshal made)).0) same (record {
        text = marshal made;
        held = ground arith;
        legible = ground arith;
        decoded = codec made;
        whole = whole;
        named = named;
      })

  create-Stores :
      (name : String) (made : DeviceIdentity) (d : Disk T)
      → ((i : DeviceIdentity) → unmarshal (marshal i) ≡ some i)
      → d.readable ≡ true
      → is_whole made ≡ true
      → (not (name == "") && not (made.device_name == name)) ≡ false
      → Stores name (create_identity unmarshal marshal made d)
  unfolding create_identity save_device_identity Stores
  create-Stores name made d codec readable whole named identity h =
      elim (Option-cases (write_file d (marshal made)).1) [
        | inl e ↦
            written-Stored name made identity d codec readable whole named e
              (identified_inj (ground arith))
        | inr (x, e) ↦ ground arith
      ]

  rename-Stores :
      (name : String) (found : DeviceIdentity) (text : T) (d : Disk T)
      → ((i : DeviceIdentity) → unmarshal (marshal i) ≡ some i)
      → d.readable ≡ true
      → d.contents ≡ some text
      → unmarshal text ≡ some found
      → Stores name (rename_identity unmarshal marshal found name d)
  unfolding rename_identity save_device_identity Stores
  rename-Stores name found text d codec readable held decoded =
      if_rule (Stores name) (not (is_whole found)) _ _ (λ _ identity h. ground arith)
        (λ whole.
          if_rule (Stores name) (not (name == "") && not (found.device_name == name)) _ _
            (λ _ identity h.
              let renamed = record found { device_name = name } in
              elim (Option-cases (write_file d (marshal renamed)).1) [
                | inl e ↦
                    written-Stored name renamed identity d codec readable (ground arith)
                      (ground (arith, eq_refl name)) e (identified_inj (ground arith))
                | inr (x, e) ↦ ground arith
              ])
            (λ named identity h. subst (Stored name d) (identified_inj h) (record {
              text = text;
              held = held;
              legible = readable;
              decoded = decoded;
              whole = ground arith;
              named = named;
            })))

  new_identity-is_whole :
      (id_digits secret_digits name : String)
      → (secret_digits == "") ≡ false
      → is_whole (new_identity id_digits secret_digits name) ≡ true
  new_identity-is_whole id_digits secret_digits name h =
      let size : count (append "dev_" id_digits) ≡ 4 + count id_digits =
        length-append "dev_" id_digits in
      elim (string_test (append "dev_" id_digits) "") [
        | inl (e, _) ↦ let empty : count (append "dev_" id_digits) ≡ 0 = ap count e in ground arith
        | inr (_, e) ↦ ground arith
      ]

  -- The name of a new identity is the one that was asked for, unless none was.
  new_identity-named :
      (id_digits secret_digits name : String)
      → (trim_space name == "") ≡ (name == "")
      → (not (name == "") && not ((new_identity id_digits secret_digits name).device_name == name))
        ≡ false
  new_identity-named id_digits secret_digits name h = ground (arith, eq_refl name)

  load-Stores :
      (path name id_digits secret_digits : String) (d : Disk T)
      → ((i : DeviceIdentity) → unmarshal (marshal i) ≡ some i)
      → d.readable ≡ true
      → (secret_digits == "") ≡ false
      → (trim_space name == "") ≡ (name == "")
      → Stores name
          (load_or_create_device_identity unmarshal marshal path name id_digits secret_digits d)
  unfolding load_or_create_device_identity Stores
  load-Stores path name id_digits secret_digits d codec readable secret named =
      if_rule (Stores name) (path == "") _ _ (λ _ identity h. ground arith)
        (λ _.
          option_rule (Stores name) d.contents _ _
            (λ _.
              create-Stores name (new_identity id_digits secret_digits name) d codec readable
                (new_identity-is_whole id_digits secret_digits name secret)
                (new_identity-named id_digits secret_digits name named))
            (λ text held.
              if_rule (Stores name) (not d.readable) _ _ (λ _ identity h. ground arith)
                (λ _.
                  option_rule (Stores name) (unmarshal text) _ _ (λ _ identity h. ground arith)
                    (λ found decoded.
                      rename-Stores name found text d codec readable held decoded))))

  -- The identity that one start has, the next start has, too, and it leaves the file as it is.
  pub load_again :
      (path name id_digits secret_digits id_digits' secret_digits' : String) (d : Disk T)
      (identity : DeviceIdentity)
      → ((i : DeviceIdentity) → unmarshal (marshal i) ≡ some i)
      → d.readable ≡ true
      → (secret_digits == "") ≡ false
      → (trim_space name == "") ≡ (name == "")
      → (load_or_create_device_identity unmarshal marshal path name id_digits secret_digits d).1
        ≡ identified identity
      → load_or_create_device_identity unmarshal marshal path name id_digits' secret_digits'
          (load_or_create_device_identity unmarshal marshal path name id_digits secret_digits d).0
        ≡ (
          (load_or_create_device_identity unmarshal marshal path name id_digits secret_digits d).0,
          identified identity,
        )
  unfolding load_or_create_device_identity Stores
  load_again path name id_digits secret_digits id_digits' secret_digits' d identity codec readable
        secret named h =
      load-Stored path name id_digits' secret_digits' _ identity
        (elim (Bool-cases (path == "")) [ inl e ↦ ground arith | inr e ↦ e ])
        (load-Stores path name id_digits secret_digits d codec readable secret named identity h)
