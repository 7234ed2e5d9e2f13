-- ===== src/Paging/Map.antt =====
-- A page that was mapped is translated to its frame, and no other page is disturbed.
use avocad_os.Base.{
  ℕ, ◌+◌, ◌/◌, ◌%◌, ◌^◌, ◌≤◌, ◌<◌, ◌≡◌, ◌≢◌, ◌∙◌, refl, ap, ap₂, sym, subst, inl, inr, bit_or, true,
  false, List, ◌∷◌, length, arith, ◌==◌, Bool-cases, done, ok, ne→==, ◌⊎◌,
}
use avocad_os.Links.{update, has, Distinct}
use avocad_os.Paging.{
  Directory, directory_index, table_index, frame_index, page_entry_addr, is_pse,
  virtual_to_physical_addr, paging_addr_is_page_aligned, set_entry, add_table, with_table,
  paging_map_page,
}
use avocad_os.Paging.Entry.{aligned_iff, addr-entry, is_pse-entry}

-- No two entries of the directory share a page table, no entry with a table is a large page, and the
-- pages that are left are distinct, not NULL, and no page tables.
pub record IsValid (h : Directory) : Type 0 where
  pub apart :
      (i j : ℕ) → h.directory_virtual i ≢ 0 → h.directory_virtual i ≡ h.directory_virtual j → i ≡ j
  pub small : (i : ℕ) → h.directory_virtual i ≢ 0 → is_pse (h.directory i) ≡ false
  pub fresh : (t : ℕ) → has t h.free ≡ true → (t ≢ 0) × ((i : ℕ) → h.directory_virtual i ≢ t)
  pub distinct : Distinct h.free

-- What the translation reads where the directory has a page table.
translate-table :
    (h : Directory) (v e : ℕ)
    → is_pse (h.directory (directory_index v)) ≡ false
    → h.tables (h.directory_virtual (directory_index v)) (table_index v) ≡ e
    → virtual_to_physical_addr false h v ≡ done (page_entry_addr e + frame_index v)
unfolding virtual_to_physical_addr
translate-table h v e p q = rw (virtual_to_physical_addr, p, q)

-- `h'` has a page table for entry `i`, and everything that `h` had.
record Extends (h h' : Directory) (i : ℕ) : Type 0 where
  present : h'.directory_virtual i ≢ 0
  valid : IsValid h'
  same_virtual :
      (j : ℕ) → h.directory_virtual j ≢ 0 → h'.directory_virtual j ≡ h.directory_virtual j
  same_directory : (j : ℕ) → h.directory_virtual j ≢ 0 → h'.directory j ≡ h.directory j
  same_tables :
      (j k : ℕ)
      → h.directory_virtual j ≢ 0
      → h'.tables (h.directory_virtual j) k ≡ h.tables (h.directory_virtual j) k
  used : length h.free ≤ length h'.free + 1

-- The physical addresses of page tables are aligned.
abbrev pub Aligned : (ℕ → ℕ) → Type 0
Aligned physical = (t : ℕ) → physical t % 4096 ≡ 0

Extends-refl : (h : Directory) (i : ℕ) → IsValid h → h.directory_virtual i ≢ 0 → Extends h h i
Extends-refl h i v ne = record {
  present = ne;
  valid = v;
  same_virtual = λ j n. refl;
  same_directory = λ j n. refl;
  same_tables = λ j k n. refl;
  used = omega arith;
}

add-IsValid :
    (physical : ℕ → ℕ) (h : Directory) (i t flags : ℕ) (free : List ℕ)
    → IsValid h
    → h.free ≡ t ∷ free
    → Aligned physical
    → flags < 4096
    → is_pse flags ≡ false
    → IsValid (add_table physical h i t free flags)
unfolding add_table
add-IsValid physical h i t flags free v e al lf np =
    let new = v.fresh t (ap (has t) e ∙ (ground arith)) in
    let d : Distinct (t ∷ free) = subst Distinct e v.distinct in
    record {
      apart = λ a b ne q. elim (Bool-cases (i == a)) [
        | inl x ↦ elim (Bool-cases (i == b)) [
          | inl y ↦ ground arith
          | inr y ↦ absurd (new.1 b (ground arith))
        ]
        | inr x ↦ elim (Bool-cases (i == b)) [
          | inl y ↦ absurd (new.1 a (ground arith))
          | inr y ↦ v.apart a b (λ z. ne (ground arith)) (ground arith)
        ]
      ];
      small = λ a ne. elim (Bool-cases (i == a)) [
        | inl x ↦ rw x (is_pse-entry (physical t) flags (al t) lf ∙ np)
        | inr x ↦ rw x (v.small a (λ z. ne (ground arith)))
      ];
      fresh = λ a m.
          let old = v.fresh a (ap (has a) e ∙ (ground arith)) in
          (
            old.0,
            λ j q. elim (Bool-cases (i == j)) [
              | inl x ↦
                  let at : t ≡ a = ground arith in
                  absurd (elim (Bool-cases (has t free)) [
                    | inl y ↦ let z = d.0 in ground arith
                    | inr y ↦
                        let w : has t free ≡ true = subst (λ b. has b free ≡ true) (sym at) m in
                        ground arith
                  ])
              | inr x ↦ old.1 j (ground arith)
            ],
          );
      distinct = d.1;
    }

add-Extends :
    (physical : ℕ → ℕ) (h : Directory) (i t flags : ℕ) (free : List ℕ)
    → IsValid h
    → h.free ≡ t ∷ free
    → h.directory_virtual i ≡ 0
    → Aligned physical
    → flags < 4096
    → is_pse flags ≡ false
    → Extends h (add_table physical h i t free flags) i
unfolding add_table
add-Extends physical h i t flags free v e z al lf np =
    let new = v.fresh t (ap (has t) e ∙ (ground arith)) in
    record {
      present = λ q. new.0 (ground arith);
      valid = add-IsValid physical h i t flags free v e al lf np;
      same_virtual = λ j n. elim (Bool-cases (i == j)) [
        | inl x ↦
            let ij : i ≡ j = ground arith in
            absurd (n (subst (λ k. h.directory_virtual k ≡ 0) ij z))
        | inr x ↦ ground arith
      ];
      same_directory = λ j n. elim (Bool-cases (i == j)) [
        | inl x ↦
            let ij : i ≡ j = ground arith in
            absurd (n (subst (λ k. h.directory_virtual k ≡ 0) ij z))
        | inr x ↦ ground arith
      ];
      same_tables = λ j k n.
          let x : (t == h.directory_virtual j) ≡ false =
            ne→== t (h.directory_virtual j) (λ q. new.1 j (sym q)) in
          rw x;
      used = let l = ap length e in omega arith;
    }

table-old :
    (physical : ℕ → ℕ) (h : Directory) (i flags : ℕ)
    → (h.directory_virtual i == 0) ≡ false
    → with_table physical h i flags ≡ done h
unfolding with_table
table-old physical h i flags e = rw (with_table, e)

table-new :
    (physical : ℕ → ℕ) (h : Directory) (i flags t : ℕ) (free : List ℕ)
    → (h.directory_virtual i == 0) ≡ true
    → h.free ≡ t ∷ free
    → with_table physical h i flags ≡ done (add_table physical h i t free flags)
unfolding with_table add_table
table-new physical h i flags t free e f = rw (with_table, e, f)

with_table-Extends :
    (physical : ℕ → ℕ) (h : Directory) (i flags t : ℕ) (free : List ℕ)
    → IsValid h
    → h.free ≡ t ∷ free
    → Aligned physical
    → flags < 4096
    → is_pse flags ≡ false
    → (h' : Directory) × (with_table physical h i flags ≡ done h') × Extends h h' i
with_table-Extends physical h i flags t free v e al lf np =
    elim (Bool-cases (h.directory_virtual i == 0)) [
      | inl z ↦ (
        add_table physical h i t free flags,
        table-new physical h i flags t free z e,
        add-Extends physical h i t flags free v e (ground arith) al lf np,
      )
      | inr z ↦ (h, table-old physical h i flags z, Extends-refl h i v (ground arith))
    ]

-- A page that was mapped: each of its addresses is translated to the frame, every address whose entry
-- has a page table and that lies in another page is translated as before, and at most one page of
-- memory was used.
pub record Mapped (h : Directory) (virt_addr page_ptr : ℕ) (h' : Directory) : Type 0 where
  pub valid : IsValid h'
  pub translated :
      (offset : ℕ)
      → offset < 4096
      → virtual_to_physical_addr false h' (virt_addr + offset) ≡ done (page_ptr + offset)
  pub others :
      (v : ℕ)
      → h.directory_virtual (directory_index v) ≢ 0
      → v / 4096 ≢ virt_addr / 4096
      → virtual_to_physical_addr false h' v ≡ virtual_to_physical_addr false h v
  pub used : length h.free ≤ length h'.free + 1

set-here : (h : Directory) (t i e : ℕ) → (set_entry h t i e).tables t i ≡ e
unfolding set_entry
set-here h t i e = ground arith

set-there :
    (h : Directory) (t i e u j : ℕ)
    → ((t == u) ≡ false) ⊎ ((i == j) ≡ false)
    → (set_entry h t i e).tables u j ≡ h.tables u j
unfolding set_entry
set-there h t i e u j (inl n) = rw n
set-there h t i e u j (inr n) = elim (Bool-cases (t == u)) [ inl m ↦ rw (m, n) | inr m ↦ rw m ]

set-IsValid : (h : Directory) (t i e : ℕ) → IsValid h → IsValid (set_entry h t i e)
unfolding set_entry
set-IsValid h t i e v = record {
  apart = v.apart;
  small = v.small;
  fresh = v.fresh;
  distinct = v.distinct;
}

set-used :
    (h : Directory) (t i e n : ℕ) → n ≤ length h.free + 1 → n ≤ length (set_entry h t i e).free + 1
unfolding set_entry
set-used h t i e n le = le

same_page :
    (v off : ℕ)
    → v % 4096 ≡ 0
    → off < 4096
    → (directory_index (v + off) ≡ directory_index v)
      × (table_index (v + off) ≡ table_index v)
      × (frame_index (v + off) ≡ off)
unfolding directory_index table_index frame_index
same_page v off h lt = (omega arith, omega arith, omega arith)

other_page :
    (v w : ℕ)
    → v / 4096 ≢ w / 4096
    → directory_index w ≡ directory_index v
    → (table_index w == table_index v) ≡ false
unfolding directory_index table_index
other_page v w ne e = ne→== (w / 2 ^ 12 % 1024) (v / 2 ^ 12 % 1024) (λ q. ne (omega arith))

map-page :
    (physical : ℕ → ℕ) (h h' : Directory) (va pa flags : ℕ)
    → va % 4096 ≡ 0
    → pa % 4096 ≡ 0
    → with_table physical h (directory_index va) flags ≡ done h'
    → paging_map_page physical h va pa flags
      ≡ done (
        set_entry h' (h'.directory_virtual (directory_index va)) (table_index va) (bit_or pa flags),
        ok 0,
      )
unfolding paging_map_page
map-page physical h h' va pa flags a b e =
    let x : paging_addr_is_page_aligned va ≡ true = aligned_iff va ∙ (ground arith) in
    let y : paging_addr_is_page_aligned pa ≡ true = aligned_iff pa ∙ (ground arith) in
    rw (paging_map_page, x, y, e)

-- The translation in a directory with a new entry.
set-translated :
    (h : Directory) (va pa flags offset : ℕ)
    → IsValid h
    → h.directory_virtual (directory_index va) ≢ 0
    → va % 4096 ≡ 0
    → pa % 4096 ≡ 0
    → pa < 2 ^ 32
    → flags < 4096
    → offset < 4096
    → virtual_to_physical_addr false
        (set_entry h (h.directory_virtual (directory_index va)) (table_index va) (bit_or pa flags))
        (va + offset)
      ≡ done (pa + offset)
unfolding set_entry
set-translated h va pa flags off v ne a b lp lf lo =
    let (d, t, f) = same_page va off a lo in
    let small : is_pse (h.directory (directory_index (va + off))) ≡ false =
      subst (λ i. is_pse (h.directory i) ≡ false) (sym d) (v.small (directory_index va) ne) in
    let i = directory_index va in
    let here : update (h.tables (h.directory_virtual i)) (table_index va) (bit_or pa flags)
          (table_index va)
        ≡ bit_or pa flags =
      ground arith in
    translate-table (set_entry h (h.directory_virtual i) (table_index va) (bit_or pa flags))
      (va + off) (bit_or pa flags) small
      (ap₂
          (λ x y.
            (set_entry h (h.directory_virtual i) (table_index va) (bit_or pa flags)).tables
              (h.directory_virtual x) y)
          d t
        ∙ set-here h (h.directory_virtual i) (table_index va) (bit_or pa flags))
    ∙ ap₂ (λ x y. done (x + y)) (addr-entry pa flags b lp lf) f

set-others :
    (h h' : Directory) (va e w : ℕ)
    → IsValid h
    → Extends h h' (directory_index va)
    → h.directory_virtual (directory_index w) ≢ 0
    → w / 4096 ≢ va / 4096
    → virtual_to_physical_addr false
        (set_entry h' (h'.directory_virtual (directory_index va)) (table_index va) e)
        w
      ≡ virtual_to_physical_addr false h w
unfolding set_entry
set-others h h' va e w v x ne np =
    let i = directory_index va in
    let j = directory_index w in
    let s = v.small j ne in
    let old = x.same_virtual j ne in
    let apart : ((h'.directory_virtual i == h'.directory_virtual j) ≡ false)
        ⊎ ((table_index va == table_index w) ≡ false) =
      elim (Bool-cases (h'.directory_virtual i == h'.directory_virtual j)) [
        | inl q ↦ inr (other_page w va np (x.valid.apart i j x.present (ground arith)))
        | inr q ↦ inl q
      ] in
    translate-table (set_entry h' (h'.directory_virtual i) (table_index va) e) w
      (h.tables (h.directory_virtual j) (table_index w)) (ap is_pse (x.same_directory j ne) ∙ s)
      (set-there h' (h'.directory_virtual i) (table_index va) e (h'.directory_virtual j)
          (table_index w) apart
        ∙ ap (λ t. h'.tables t (table_index w)) old
        ∙ x.same_tables j (table_index w) ne)
    ∙ sym (translate-table h w (h.tables (h.directory_virtual j) (table_index w)) s refl)

-- Both addresses are page-aligned and the frame is below 2 ^ 32, the flags are below 4096 without the
-- bit of a large page, the physical addresses of page tables are aligned, and memory for one page
-- table is left. Then `paging_map_page` succeeds and keeps the directory valid; every address of the
-- page is translated to the frame, and no other page is disturbed.
pub paging_map_page-Mapped :
    (physical : ℕ → ℕ) (h : Directory) (virt_addr page_ptr flags t : ℕ) (free : List ℕ)
    → IsValid h
    → h.free ≡ t ∷ free
    → Aligned physical
    → virt_addr % 4096 ≡ 0
    → page_ptr % 4096 ≡ 0
    → page_ptr < 2 ^ 32
    → flags < 4096
    → is_pse flags ≡ false
    → (h' : Directory) × (paging_map_page physical h virt_addr page_ptr flags ≡ done (h', ok 0))
      × Mapped h virt_addr page_ptr h'
paging_map_page-Mapped physical h va pa flags t free v e al a b lp lf np =
    let (g, w, x) = with_table-Extends physical h (directory_index va) flags t free v e al lf np in
    (
      set_entry g (g.directory_virtual (directory_index va)) (table_index va) (bit_or pa flags),
      map-page physical h g va pa flags a b w,
      record {
        valid =
            set-IsValid g (g.directory_virtual (directory_index va)) (table_index va)
              (bit_or pa flags) x.valid;
        translated = λ off lo. set-translated g va pa flags off x.valid x.present a b lp lf lo;
        others = λ u ne nq. set-others h g va (bit_or pa flags) u v x ne nq;
        used =
            set-used g (g.directory_virtual (directory_index va)) (table_index va) (bit_or pa flags)
              (length h.free) x.used;
      },
    )
