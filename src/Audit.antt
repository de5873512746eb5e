-- ===== src/Audit.antt =====
-- internal/audit/store.go: the log of what a client has done, in a file of limited length.
use beacon_desk.Prelude.{
  ℕ, suc, ◌+◌, ◌-◌, String, Bool, true, false, Option, none, some, List, [], ◌∷◌, ◌++◌, ◌==◌, ◌=ℕ◌,
  if◌then◌else◌, length, drop, take, ltb,
}
use beacon_desk.Prelude.Int.{ℤ, pos, pos_part, neg_part, ltb_ℤ}
use beacon_desk.Files.{Disk, FileError, Loaded, loaded, failed, read_entries, write_file}
pub mod Retention

abbrev pub default_max_entries : ℤ
default_max_entries = pos 500

pub record Entry : Type 0 where
  pub time : ℤ
  pub event : String
  pub local_id : String
  pub peer_id : String
  pub session_id : String
  pub mode : String
  pub detail : String

pub record Store : Type 0 where
  pub path : String
  pub max_entries : ℤ

unfoldable pub new_store : String → Store
new_store path = record { path = path; max_entries = default_max_entries }

-- Is there no store, or one without a file? `none` is the nil store.
unfoldable pub is_off : Option Store → Bool
is_off none = true
is_off (some s) = s.path == ""

-- An entry without a time is of now.
abbrev pub stamped : ℤ → Entry → Entry
stamped now e = if pos_part e.time + neg_part e.time =ℕ 0 then record e { time = now } else e

-- How many entries the store keeps.
abbrev pub retained : Option Store → ℕ
retained none = 0
retained (some s) =
    pos_part (if ltb_ℤ (pos 0) s.max_entries then s.max_entries else default_max_entries)

-- The last `limit` entries.
unfoldable pub newest : ℕ → List Entry → List Entry
newest limit entries =
    if ltb limit (length entries) then drop (length entries - limit) entries else entries

-- `sort.SliceStable`: by time, the latest first, and at one time the last appended first.
unfoldable pub insert_entry : Entry → List Entry → List Entry
insert_entry a [] = a ∷ []
insert_entry a (b ∷ rest) =
    let later = insert_entry a rest in if ltb_ℤ b.time a.time then a ∷ b ∷ rest else b ∷ later

unfoldable pub sort_entries : List Entry → List Entry
unfolding insert_entry
sort_entries [] = []
sort_entries (a ∷ rest) = insert_entry a (sort_entries rest)

-- The first `limit` entries; all of them for 0 or less.
abbrev pub at_most : ℤ → List Entry → List Entry
at_most limit entries = if ltb_ℤ (pos 0) limit then take (pos_part limit) entries else entries

-- `marshal` and `unmarshal` are `encoding/json` on the entries of the file.
module _ {T : Type 0} (unmarshal : T → Option (List Entry)) (marshal : List Entry → T) where
  unfoldable pub load : Option Store → Disk T → Loaded Entry
  unfolding is_off read_entries
  load s d = if is_off s then loaded [] else read_entries unmarshal d

  unfoldable pub save : List Entry → Disk T → Disk T × Option FileError
  unfolding write_file
  save entries d = write_file d (marshal entries)

  unfoldable pub append : Option Store → ℤ → Entry → Disk T → Disk T × Option FileError
  unfolding is_off load save newest
  append s now e d = if is_off s then (d, none) else elim (load s d) [
    | failed x ↦ (d, some x)
    | loaded entries ↦ save (newest (retained s) (entries ++ stamped now e ∷ [])) d
  ]

  unfoldable pub list : Option Store → ℤ → Disk T → Loaded Entry
  unfolding load sort_entries
  list s limit d = elim (load s d) [
    | failed x ↦ failed x
    | loaded entries ↦ loaded (at_most limit (sort_entries entries))
  ]

-- `Clear` writes the text of a file without entries, which is the argument `empty`.
unfoldable pub clear : {T : Type 0} → T → Option Store → Disk T → Disk T × Option FileError
unfolding is_off write_file
clear empty s d = if is_off s then (d, none) else write_file d empty
