-- ===== src/Files.antt =====
-- The small JSON files of internal/audit, internal/trust and internal/auth: one file on a disk, read whole and
-- written whole. `encoding/json` is a parameter of what uses it: the type `T` of its
-- texts, `unmarshal` and `marshal`.
use beacon_desk.Prelude.{
  ◌≡◌, ◌⊎◌, inl, inr, refl, ap, Bool, true, not, Option, none, some, List, [], if◌then◌else◌, arith,
}

-- The file: its text, if it is there; whether it can be read and written; and the text that a
-- failing write leaves.
pub record Disk (T : Type 0) : Type 0 where
  pub contents : Option T
  pub readable : Bool
  pub writable : Bool
  pub torn : Option T

pub data FileError : Type 0 where
  cannot_read : FileError
  cannot_decode : FileError
  cannot_write : FileError

pub data Loaded {ℓ} (A : Type ℓ) : Type ℓ where
  loaded : List A → Loaded A
  failed : FileError → Loaded A

-- `os.ReadFile` and `json.Unmarshal`; a file that is not there holds nothing.
unfoldable pub read_entries {ℓ} :
    {A : Type ℓ} {T : Type 0} → (T → Option (List A)) → Disk T → Loaded A
read_entries unmarshal d = elim d.contents [
  | none ↦ loaded []
  | some text ↦
      if not d.readable
      then failed cannot_read
      else elim (unmarshal text) [ none ↦ failed cannot_decode | some entries ↦ loaded entries ]
]

-- `os.MkdirAll` and `os.WriteFile`.
unfoldable pub write_file : {T : Type 0} → Disk T → T → Disk T × Option FileError
write_file d text =
    if d.writable
    then (record d { contents = some text }, none)
    else (record d { contents = d.torn }, some cannot_write)

-- What is written can be read again, if the file is readable and the encoding is not lossy.
pub read_entries-write_file {ℓ} :
    {A : Type ℓ} {T : Type 0} (unmarshal : T → Option (List A)) (d : Disk T) (text : T)
    (entries : List A)
    → unmarshal text ≡ some entries
    → d.readable ≡ true
    → (write_file d text).1 ≡ none
    → read_entries unmarshal (write_file d text).0 ≡ loaded entries
unfolding read_entries write_file
read_entries-write_file unmarshal d text entries e r w = ground arith

-- A file has been loaded, or it has not.
pub Loaded-cases {ℓ} :
    {A : Type ℓ} (o : Loaded A)
    → ((e : FileError) × (o ≡ failed e)) ⊎ ((l : List A) × (o ≡ loaded l))
Loaded-cases (failed e) = inl (e, refl)
Loaded-cases (loaded l) = inr (l, refl)

pub loaded_inj {ℓ} : {A : Type ℓ} {x y : List A} → loaded x ≡ loaded y → x ≡ y
loaded_inj {x = x} e = ap (λ o. elim o [ loaded l ↦ l | failed _ ↦ x ]) e
