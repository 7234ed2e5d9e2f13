-- ===== src/Fat/Entries.antt =====
-- The entries of a directory, the search for a name as a function on them, and the steps of the loop.
use avocad_os.Base.{
  ℕ, zero, suc, ◌+◌, ◌-◌, ◌*◌, ◌%◌, ◌^◌, ◌≤◌, ◌<◌, ◌≡◌, ◌∙◌, refl, ap, ap₂, inl, inr, Bool, true,
  false, not, ◌&&◌, ◌||◌, List, [], ◌∷◌, ◌++◌, ltb, ◌==◌, if◌then◌else◌, arith, Option, none, some,
  length, length-take, take, drop, get_or, Bool-cases, ok, Outcome, done, bit_and,
}
use avocad_os.Fat.Names.{Bytes, same_bytes, Bytes-take, Bytes-drop, strncmp-same_bytes}
use avocad_os.Fat.{FatPrivateData, fat16_cluster_number_to_data_sector}
use avocad_os.Fat.Descriptor.{FatItem, FatDescriptor, reset_cursors, descriptor_read}
use avocad_os.Fat.Directory.{
  entry_size, word_at, decode_entry, is_skipped, is_last, is_named, found_item, visit_entry,
  find_loop,
}

-- The 32 bytes of each of the first `n` entries of a directory with these bytes.
abbrev pub entries : ℕ → List ℕ → List (List ℕ)
entries zero bytes = []
entries (suc n) bytes = take 32 bytes ∷ entries n (drop 32 bytes)

-- In an entry, the name has bytes 0 to 7, the extension 8 to 10, the attributes byte 11, the first
-- cluster bytes 26 and 27, the size bytes 28 to 31.
abbrev pub byte : List ℕ → ℕ → ℕ
byte e i = get_or e i 0

abbrev pub cluster_of : List ℕ → ℕ
cluster_of e = byte e 26 + byte e 27 * 256

-- A part of a long name, or a volume label.
abbrev pub hidden : List ℕ → Bool
hidden e = byte e 11 == 15 || not (bit_and (byte e 11) 8 == 0)

-- All eleven characters are those of the name and of the extension.
abbrev pub has_name : (filename extension : List ℕ) → List ℕ → Bool
has_name filename extension e =
    same_bytes filename (take 8 e) && same_bytes extension (take 3 (drop 8 e))

-- A name of eight bytes and an extension of three.
pub record IsName (filename extension : List ℕ) : Type 0 where
  pub filename_length : length filename ≡ 8
  pub extension_length : length extension ≡ 3
  pub filename_bytes : Bytes filename
  pub extension_bytes : Bytes extension

-- The first entry with the name that is not hidden, before the entry whose first byte is 0, and its
-- number from `i` + 1 on.
abbrev pub lookup : (filename extension : List ℕ) → List (List ℕ) → ℕ → Option (List ℕ × ℕ)
lookup filename extension [] i = none
lookup filename extension (e ∷ rest) i =
    if hidden e
    then lookup filename extension rest (i + 1)
    else if byte e 0 == 0
    then none
    else if has_name filename extension e
    then some (e, i + 1)
    else lookup filename extension rest (i + 1)

-- The item for the bytes of an entry of a directory; attribute 16 is that of a directory.
abbrev pub item_of : FatPrivateData → FatItem → Option (List ℕ × ℕ) → Option FatItem
item_of fat dir none = none
item_of fat dir (some (e, i)) = some (record {
  kind = if bit_and 16 (byte e 11) == 0 then 1 else 0;
  entry = record {
    filename = take 8 e;
    extension = take 3 (drop 8 e);
    attributes = byte e 11;
    first_cluster = cluster_of e;
    size_bytes = byte e 28 + byte e 29 * 256 + (byte e 30 + byte e 31 * 256) * 2 ^ 16;
  };
  first_sector =
      if ltb (cluster_of e) 2
      then 0
      else (fat.data_sector + (cluster_of e - 2) * fat.sectors_per_cluster) % 2 ^ 32;
  parent_dir_first_sector = dir.first_sector;
  parent_dir_position = i;
})

-- The search ends with the cursor at the start and this result.
abbrev pub Finds : FatItem → Option FatItem → Outcome (FatDescriptor × Option FatItem) → Type 0
Finds dir result outcome =
    (e : FatDescriptor) × (outcome ≡ done (e, result)) × (e.item ≡ dir) × (e.pos ≡ 0)

-- The bytes of the next entry.
drop-all : (n : ℕ) (xs : List ℕ) → length xs ≤ n → drop n xs ≡ []
drop-all zero [] le = refl
drop-all zero (x ∷ xs) le = absurd (omega arith)
drop-all (suc n) [] le = refl
drop-all (suc n) (x ∷ xs) le = drop-all n xs (omega arith)

append_nil : (xs : List ℕ) → xs ++ [] ≡ xs
append_nil [] = refl
append_nil (x ∷ xs) = ap (◌∷◌ x) (append_nil xs)

-- A full read replaces the buffer.
refill :
    (bytes buffer : List ℕ)
    → length bytes ≡ entry_size
    → length buffer ≡ entry_size
    → bytes ++ drop (length bytes) buffer ≡ bytes
refill bytes buffer e h =
    ap (λ xs. bytes ++ xs) (drop-all (length bytes) buffer (omega arith)) ∙ append_nil bytes

-- The steps of the loop.
pub find-over :
    (fat : FatPrivateData) (budget fuel : ℕ) (filename extension : List ℕ) (d : FatDescriptor)
    (buffer : List ℕ) (i : ℕ)
    → d.eof ≡ true
    → find_loop fat budget (suc fuel) filename extension d buffer i ≡ done (reset_cursors d, none)
unfolding find_loop reset_cursors
find-over fat budget fuel filename extension d buffer i h = rw (find_loop, h) refl

find-round :
    (fat : FatPrivateData) (budget fuel : ℕ) (filename extension : List ℕ) (d e : FatDescriptor)
    (buffer bytes : List ℕ) (i n : ℕ)
    → d.eof ≡ false
    → descriptor_read fat d entry_size ≡ done (e, (bytes, ok n))
    → find_loop fat (suc budget) (suc fuel) filename extension d buffer i
      ≡ visit_entry fat
          (suc budget)
          filename
          extension
          e
          (decode_entry (bytes ++ drop (length bytes) buffer))
          ((i + 1) % 2 ^ 32)
          (find_loop fat
            (suc budget)
            fuel
            filename
            extension
            e
            (bytes ++ drop (length bytes) buffer)
            ((i + 1) % 2 ^ 32))
unfolding find_loop
find-round fat budget fuel filename extension d e buffer bytes i n h r = rw (find_loop, h, r) refl

pub find-next :
    (fat : FatPrivateData) (budget fuel : ℕ) (filename extension : List ℕ) (d e : FatDescriptor)
    (buffer bytes : List ℕ) (i n : ℕ)
    → d.eof ≡ false
    → descriptor_read fat d entry_size ≡ done (e, (bytes, ok n))
    → length bytes ≡ entry_size
    → length buffer ≡ entry_size
    → i + 1 < 2 ^ 32
    → find_loop fat (suc budget) (suc fuel) filename extension d buffer i
      ≡ visit_entry fat
          (suc budget)
          filename
          extension
          e
          (decode_entry bytes)
          (i + 1)
          (find_loop fat (suc budget) fuel filename extension e bytes (i + 1))
find-next fat budget fuel filename extension d e buffer bytes i n h r lb lf lt =
    let w : (i + 1) % 2 ^ 32 ≡ i + 1 = omega arith in
    find-round fat budget fuel filename extension d e buffer bytes i n h r
    ∙ ap₂
        (λ b j.
          visit_entry fat (suc budget) filename extension e (decode_entry b) j
            (find_loop fat (suc budget) fuel filename extension e b j))
        (refill bytes buffer lb lf) w

pub length-drop : (n : ℕ) (xs : List ℕ) → length (drop n xs) ≡ length xs - n
length-drop zero xs = omega arith
length-drop (suc n) [] = omega arith
length-drop (suc n) (x ∷ xs) = let h = length-drop n xs in omega arith

-- The tests of the code on an entry, and the item that it makes of one.
is_skipped-hidden : (e : List ℕ) → is_skipped (decode_entry e) ≡ hidden e
unfolding is_skipped decode_entry
is_skipped-hidden e = refl

is_last-byte : (e : List ℕ) → is_last (decode_entry e) ≡ (byte e 0 == 0)
unfolding is_last decode_entry
is_last-byte [] = refl
is_last-byte (x ∷ e) = refl

is_named-has_name :
    (filename extension e : List ℕ)
    → IsName filename extension
    → length e ≡ 32
    → Bytes e
    → is_named filename extension (decode_entry e) ≡ has_name filename extension e
unfolding is_named decode_entry
is_named-has_name filename extension e name le be =
    let l8 = length-take 8 e (omega arith) in
    let l3 = length-take 3 (drop 8 e) (let d = length-drop 8 e in omega arith) in
    ap₂ (λ x y. x && y)
      (strncmp-same_bytes 7 filename (take 8 e) name.filename_length l8 name.filename_bytes
        (Bytes-take 8 e be))
      (strncmp-same_bytes 2 extension (take 3 (drop 8 e)) name.extension_length l3
        name.extension_bytes (Bytes-take 3 (drop 8 e) (Bytes-drop 8 e be)))

found_item-item_of :
    (fat : FatPrivateData) (d : FatDescriptor) (e : List ℕ) (i : ℕ)
    → some (found_item fat d (decode_entry e) i) ≡ item_of fat d.item (some (e, i))
unfolding found_item decode_entry word_at fat16_cluster_number_to_data_sector
found_item-item_of fat d e i = refl

-- A visited entry and what the search of the rest finds.
pub visit_entry-Finds :
    (fat : FatPrivateData) (budget : ℕ) (filename extension : List ℕ) (dir : FatItem)
    (e : FatDescriptor) (entry : List ℕ) (more : List (List ℕ)) (i : ℕ)
    (rest : Outcome (FatDescriptor × Option FatItem))
    → IsName filename extension
    → length entry ≡ 32
    → Bytes entry
    → e.item ≡ dir
    → Finds dir (item_of fat dir (lookup filename extension more (i + 1))) rest
    → Finds dir
        (item_of fat dir (lookup filename extension (entry ∷ more) i))
        (visit_entry fat (suc budget) filename extension e (decode_entry entry) (i + 1) rest)
unfolding visit_entry reset_cursors
visit_entry-Finds fat budget filename extension dir e entry more i rest name le be same found =
    elim (Bool-cases (hidden entry)) [
      | inl s ↦ rw (visit_entry, is_skipped-hidden entry, s) found
      | inr s ↦ elim (Bool-cases (byte entry 0 == 0)) [
        | inl l ↦
            rw (visit_entry, is_skipped-hidden entry, s, is_last-byte entry, l)
              (reset_cursors (record e { eof = true }), refl, same, refl)
        | inr l ↦ elim (Bool-cases (has_name filename extension entry)) [
          | inl m ↦
              rw
                (
                  visit_entry,
                  is_skipped-hidden entry,
                  s,
                  is_last-byte entry,
                  l,
                  is_named-has_name filename extension entry name le be,
                  m,
                )
                (
                  reset_cursors e,
                  ap (λ item. done (reset_cursors e, item))
                      (found_item-item_of fat e entry (i + 1)
                        ∙ ap (λ item. item_of fat item (some (entry, i + 1))) same),
                  same,
                  refl,
                )
          | inr m ↦
              rw
                (
                  visit_entry,
                  is_skipped-hidden entry,
                  s,
                  is_last-byte entry,
                  l,
                  is_named-has_name filename extension entry name le be,
                  m,
                )
                found
        ]
      ]
    ]
