-- ===== src/Examples/Stores.antt =====
-- Runs of the stores, where a text is the list that it stands for, so that no coding loses anything.
use beacon_desk.Prelude.{
  ◌≡◌, ◌≢◌, ◌≤◌, refl, String, true, false, not, ◌&&◌, ◌||◌, Option, none, some, List, [], ◌∷◌,
  ◌++◌, ◌==◌, arith, eq_iff, length, if◌then◌else◌, ltb,
}
use beacon_desk.Prelude.Int.{ℤ, pos}
use beacon_desk.Files.{Disk, loaded}
use beacon_desk.Trust.{Device, remember, revoke, touch, is_trusted}
use beacon_desk.Trust.Trusting.{remember-is_trusted, revoke-is_trusted}
use beacon_desk.Audit.{Entry, Store, is_off, stamped, load, append, list, clear}
use beacon_desk.Audit.Retention.{survivors, append-keeps, append-list}

abbrev written_as_is {ℓ} : {A : Type ℓ} → List A → List A
written_as_is l = l

abbrev read_as_is {ℓ} : {A : Type ℓ} → List A → Option (List A)
read_as_is l = some l

abbrev tablet : Device
tablet = record { device_id = "tablet"; mode = "view"; added_at = pos 1; last_used_at = pos 2 }

abbrev devices_file : Disk (List Device)
devices_file = record {
  contents = some (tablet ∷ []);
  readable = true;
  writable = true;
  torn = none;
}

abbrev devices_path : String
devices_path = "devices.json"

path_named : devices_path ≢ ""
path_named h = ground (arith, eq_iff devices_path "")

phone_remembered :
    (remember read_as_is written_as_is devices_path "phone" "view" (pos 5) devices_file).1 ≡ none
unfolding remember
phone_remembered = refl

remember-is_trusted_example :
    is_trusted read_as_is written_as_is devices_path "phone"
      (remember read_as_is written_as_is devices_path "phone" "view" (pos 5) devices_file).0
    ≡ ("phone" == "phone" || is_trusted read_as_is written_as_is devices_path "phone" devices_file)
remember-is_trusted_example =
    remember-is_trusted read_as_is written_as_is (λ l. refl) devices_path "phone" "view" (pos 5)
      devices_file "phone" path_named refl phone_remembered

tablet_revoked : (revoke read_as_is written_as_is devices_path "tablet" devices_file).1 ≡ none
unfolding revoke
tablet_revoked = refl

revoke-is_trusted_example :
    is_trusted read_as_is written_as_is devices_path "tablet"
      (revoke read_as_is written_as_is devices_path "tablet" devices_file).0
    ≡ (not ("tablet" == "tablet")
        && is_trusted read_as_is written_as_is devices_path "tablet" devices_file)
revoke-is_trusted_example =
    revoke-is_trusted read_as_is written_as_is (λ l. refl) devices_path "tablet" devices_file
      "tablet" path_named refl tablet_revoked

tablet_touched :
    (touch read_as_is written_as_is devices_path "tablet" (pos 9) devices_file).1 ≡ none
unfolding touch
tablet_touched = refl

abbrev event_at : ℤ → String → Entry
event_at time event = record {
  time = time;
  event = event;
  local_id = "";
  peer_id = "dev_b";
  session_id = "";
  mode = "";
  detail = "";
}

abbrev two_events : List Entry
two_events = event_at (pos 4) "session.accepted" ∷ event_at (pos 6) "input.mouse" ∷ []

abbrev log_file : Disk (List Entry)
log_file = record { contents = some two_events; readable = true; writable = true; torn = none }

-- A store that keeps two entries.
abbrev short_log : Store
short_log = record { path = "audit.json"; max_entries = pos 2 }

abbrev closing : Entry
closing = event_at (pos 6) "session.closed"

log_is_on : is_off (some short_log) ≡ false
unfolding is_off
log_is_on = refl

log_loaded : load read_as_is written_as_is (some short_log) log_file ≡ loaded two_events
unfolding load
log_loaded = refl

closing_appended :
    (append read_as_is written_as_is (some short_log) (pos 9) closing log_file).1 ≡ none
unfolding append
closing_appended = refl

append-keeps_example :
    (entries : List Entry) × (load read_as_is written_as_is (some short_log) log_file
      ≡ loaded entries)
    × (load read_as_is written_as_is
          (some short_log)
          (append read_as_is written_as_is (some short_log) (pos 9) closing log_file).0
        ≡ loaded (survivors 2 entries ++ stamped (pos 9) closing ∷ []))
    × (length (survivors 2 entries ++ stamped (pos 9) closing ∷ []) ≤ 2)
    × (length (survivors 2 entries) ≡ (if ltb (length entries) 2 then length entries else 1))
append-keeps_example =
    append-keeps read_as_is written_as_is (λ l. refl) short_log (pos 9) closing log_file log_is_on
      refl closing_appended

append-list_example :
    list read_as_is written_as_is
      (some short_log)
      (pos 1)
      (append read_as_is written_as_is (some short_log) (pos 9) closing log_file).0
    ≡ loaded (closing ∷ [])
append-list_example =
    append-list read_as_is written_as_is (λ l. refl) short_log (pos 9) closing log_file two_events
      log_is_on refl log_loaded (refl, (refl, tt)) closing_appended

cleared : (clear {T = List Entry} [] (some short_log) log_file).1 ≡ none
unfolding clear
cleared = refl
