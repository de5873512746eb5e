-- ===== src/Audit/Retention.antt =====
-- internal/audit/store.go: what stays in the log, and what is listed first.
use beacon_desk.Prelude.{
  ℕ, zero, suc, ◌+◌, ◌-◌, ◌≤◌, ◌<◌, ◌≡◌, inl, inr, refl, sym, ap, ◌∙◌, true, false, Option, none,
  some, List, [], ◌∷◌, ◌++◌, arith, if◌then◌else◌, length, length-append, length-drop, drop, take,
  All, ltb, if_rule,
}
use beacon_desk.Prelude.Int.{ℤ, pos, pos_part, ltb_ℤ}
use beacon_desk.Files.{Disk, loaded, Loaded-cases, loaded_inj, read_entries, write_file}
use beacon_desk.Audit.{
  Entry, Store, is_off, stamped, retained, newest, insert_entry, sort_entries, at_most, load, save,
  append, list, clear,
}

retained-pos : (s : Store) → 0 < retained (some s)
retained-pos s = ground arith

drop-append :
    (n : ℕ) (xs : List Entry) (y : Entry)
    → n ≤ length xs
    → drop n (xs ++ y ∷ []) ≡ drop n xs ++ y ∷ []
drop-append zero xs y h = refl
drop-append (suc n) [] y h = absurd (omega arith)
drop-append (suc n) (x ∷ xs) y h = drop-append n xs y (omega arith)

-- The entries that stay, when one more comes.
abbrev pub survivors : ℕ → List Entry → List Entry
survivors limit entries = drop (length entries + 1 - limit) entries

-- `drop` of nothing.
drop-none : (n : ℕ) (xs : List Entry) → n ≡ 0 → xs ≡ drop n xs
drop-none zero xs h = refl
drop-none (suc n) xs h = absurd (omega arith)

take-none : (n : ℕ) → take {A = Entry} n [] ≡ []
take-none zero = refl
take-none (suc n) = refl

newest-append :
    (limit : ℕ) (entries : List Entry) (e : Entry)
    → 0 < limit
    → newest limit (entries ++ e ∷ []) ≡ survivors limit entries ++ e ∷ []
unfolding newest
newest-append limit entries e h =
    let n = length entries + 1 - limit in
    let len : length (entries ++ e ∷ []) ≡ length entries + 1 = length-append entries (e ∷ []) in
    if_rule (λ l. l ≡ survivors limit entries ++ e ∷ []) (ltb limit (length (entries ++ e ∷ []))) _
      _
      (λ over.
        ap (λ k. drop (k - limit) (entries ++ e ∷ [])) len ∙ drop-append n entries e (omega arith))
      (λ fits. ap (λ l. l ++ e ∷ []) (drop-none n entries (ground (arith, len))))

-- An entry at or after the time of all others is listed before them.
sort_entries-last :
    (xs : List Entry) (e : Entry)
    → All (λ x. ltb_ℤ e.time x.time ≡ false) xs
    → sort_entries (xs ++ e ∷ []) ≡ e ∷ sort_entries xs
unfolding sort_entries insert_entry
sort_entries-last [] e h = refl
sort_entries-last (x ∷ xs) e h = ground (arith, sort_entries-last xs e h.1)

All-drop {ℓ} : (P : Entry → Type ℓ) (n : ℕ) (xs : List Entry) → All P xs → All P (drop n xs)
All-drop P zero xs h = h
All-drop P (suc n) [] h = tt
All-drop P (suc n) (x ∷ xs) h = All-drop P n xs h.1

module _ {T : Type 0} (unmarshal : T → Option (List Entry)) (marshal : List Entry → T)
    (faithful : (l : List Entry) → unmarshal (marshal l) ≡ some l) where
  load-save :
      (s : Option Store) (entries : List Entry) (d : Disk T)
      → is_off s ≡ false
      → d.readable ≡ true
      → (save unmarshal marshal entries d).1 ≡ none
      → load unmarshal marshal s (save unmarshal marshal entries d).0 ≡ loaded entries
  unfolding load save write_file read_entries
  load-save s entries d on readable h = ground (arith, faithful entries)

  -- Where the store has a file that can be read and `marshal` loses nothing: an append that
  -- succeeds has loaded the entries of the file, and leaves the last of them and the new one behind
  -- them, no more entries in all than the store keeps; all old ones stay while there is room, and
  -- else as many as leave room for one.
  pub append-keeps :
      (s : Store) (now : ℤ) (e : Entry) (d : Disk T)
      → is_off (some s) ≡ false
      → d.readable ≡ true
      → (append unmarshal marshal (some s) now e d).1 ≡ none
      → (entries : List Entry) × (load unmarshal marshal (some s) d ≡ loaded entries)
        × (load unmarshal marshal (some s) (append unmarshal marshal (some s) now e d).0
            ≡ loaded (survivors (retained (some s)) entries ++ stamped now e ∷ []))
        × (length (survivors (retained (some s)) entries ++ stamped now e ∷ []) ≤ retained (some s))
        × (length (survivors (retained (some s)) entries) ≡ (
            if ltb (length entries) (retained (some s))
            then length entries
            else retained (some s) - 1))
  unfolding append
  append-keeps s now e d on readable h = elim (Loaded-cases (load unmarshal marshal (some s) d)) [
    | inl (x, failure) ↦ absurd (ground arith)
    | inr (entries, success) ↦
        let limit = retained (some s) in
        let some_room = retained-pos s in
        let kept = newest limit (entries ++ stamped now e ∷ []) in
        (
          entries,
          success,
          ground (arith, load-save (some s) kept d on readable (ground arith))
              ∙ ap loaded (newest-append limit entries (stamped now e) some_room),
          omega (
            arith,
            length-append (survivors limit entries) (stamped now e ∷ []),
            length-drop (length entries + 1 - limit) entries,
          ),
          ground (arith, length-drop (length entries + 1 - limit) entries),
        )
  ]

  list-load :
      (s : Option Store) (limit : ℤ) (d : Disk T) (entries : List Entry)
      → load unmarshal marshal s d ≡ loaded entries
      → list unmarshal marshal s limit d ≡ loaded (at_most limit (sort_entries entries))
  unfolding list
  list-load s limit d entries h = ground arith

  -- Where the store has a file that can be read and `marshal` loses nothing: an entry that is
  -- appended at or after the time of all entries in the file is then the first that is listed.
  pub append-list :
      (s : Store) (now : ℤ) (e : Entry) (d : Disk T) (entries : List Entry)
      → is_off (some s) ≡ false
      → d.readable ≡ true
      → load unmarshal marshal (some s) d ≡ loaded entries
      → All (λ x. ltb_ℤ (stamped now e).time x.time ≡ false) entries
      → (append unmarshal marshal (some s) now e d).1 ≡ none
      → list unmarshal marshal (some s) (pos 1) (append unmarshal marshal (some s) now e d).0
        ≡ loaded (stamped now e ∷ [])
  append-list s now e d entries on readable before latest h =
      let (entries', before', after, fits, room) = append-keeps s now e d on readable h in
      let same : entries' ≡ entries = loaded_inj (sym before' ∙ before) in
      let limit = retained (some s) in
      let kept = survivors limit entries in
      let last = sort_entries-last kept (stamped now e) (
        All-drop (λ x. ltb_ℤ (stamped now e).time x.time ≡ false) (length entries + 1 - limit)
          entries latest) in
      list-load (some s) (pos 1) _ _
        (after ∙ ap (λ xs. loaded (survivors limit xs ++ stamped now e ∷ [])) same)
      ∙ ap (λ xs. loaded (at_most (pos 1) xs)) last

  -- After a successful `Clear` of a store with a file that can be read, nothing is listed, if the
  -- text that it writes is that of a file without entries.
  pub clear-list :
      (empty : T) (s : Store) (limit : ℤ) (d : Disk T)
      → unmarshal empty ≡ some []
      → is_off (some s) ≡ false
      → d.readable ≡ true
      → (clear empty (some s) d).1 ≡ none
      → list unmarshal marshal (some s) limit (clear empty (some s) d).0 ≡ loaded []
  unfolding clear load write_file read_entries sort_entries
  clear-list empty s limit d nothing on readable h =
      list-load (some s) limit (clear empty (some s) d).0 [] (ground (arith, nothing))
      ∙ ap loaded (ground (arith, take-none (pos_part limit)))
