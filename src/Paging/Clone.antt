-- ===== src/Paging/Clone.antt =====
-- A clone of the kernel's directory sees what the kernel sees.
use avocad_os.Base.{
  ℕ, zero, suc, ◌+◌, ◌%◌, ◌^◌, ◌<◌, ◌≡◌, ◌∙◌, refl, sym, ap, inl, inr, Bool, true, false, not, ◌&&◌,
  List, ◌∷◌, arith, ltb, leb, ◌==◌, if◌then◌else◌, bit_or, Bool-cases, Outcome, done, fault, ◌>>=◌,
}
use avocad_os.Paging.{
  Directory, directory_index, table_index, frame_index, page_entry_addr, is_pse,
  virtual_to_physical_addr, share_entry, clone_loop, map_self, paging_clone_directory,
}

-- What is left of a loop over `k` entries from `i` on: those that the kernel has are shared, the others
-- stay as they were, and so do the page tables and the free pages.
record Shared (kernel copy : Directory) (k i : ℕ) (c : Directory) : Type 0 where
  same_tables : c.tables ≡ copy.tables
  same_free : c.free ≡ copy.free
  entries :
      (j : ℕ)
      → c.directory j ≡ (
          if leb i j && ltb j (i + k) && not (kernel.directory j == 0)
          then kernel.directory j
          else copy.directory j)
  virtual :
      (j : ℕ)
      → c.directory_virtual j ≡ (
          if leb i j && ltb j (i + k) && not (kernel.directory j == 0)
          then kernel.directory_virtual j
          else copy.directory_virtual j)

clone-over :
    (physical : ℕ → ℕ) (kernel copy : Directory) (k i : ℕ)
    → (kernel.directory i == 0) ≡ true
    → clone_loop physical kernel kernel copy (suc k) i
      ≡ clone_loop physical kernel kernel copy k (i + 1)
unfolding clone_loop
clone-over physical kernel copy k i h = rw (clone_loop, h) refl

clone-share :
    (physical : ℕ → ℕ) (kernel copy : Directory) (k i : ℕ)
    → (kernel.directory i == 0) ≡ false
    → clone_loop physical kernel kernel copy (suc k) i
      ≡ clone_loop physical kernel kernel (share_entry kernel copy i) k (i + 1)
unfolding clone_loop
clone-share physical kernel copy k i h =
    let e : (kernel.directory i == kernel.directory i) ≡ true = ground arith in
    rw (clone_loop, h, e) refl

clone_loop-Shared :
    (physical : ℕ → ℕ) (kernel copy : Directory) (k i : ℕ)
    → (c : Directory) × (clone_loop physical kernel kernel copy k i ≡ done c)
      × Shared kernel copy k i c
unfolding clone_loop share_entry
clone_loop-Shared physical kernel copy zero i = (
  copy,
  refl,
  record {
    same_tables = refl;
    same_free = refl;
    entries = λ j. ground arith;
    virtual = λ j. ground arith;
  },
)
clone_loop-Shared physical kernel copy (suc k) i = elim (Bool-cases (kernel.directory i == 0)) [
  | inl h ↦
      let (c, e, s) = clone_loop-Shared physical kernel copy k (i + 1) in
      (
        c,
        clone-over physical kernel copy k i h ∙ e,
        record {
          same_tables = s.same_tables;
          same_free = s.same_free;
          entries = λ j. ground (arith, s.entries j);
          virtual = λ j. ground (arith, s.virtual j);
        },
      )
  | inr h ↦
      let (c, e, s) = clone_loop-Shared physical kernel (share_entry kernel copy i) k (i + 1) in
      (
        c,
        clone-share physical kernel copy k i h ∙ e,
        record {
          same_tables = s.same_tables;
          same_free = s.same_free;
          entries = λ j. ground (arith, s.entries j);
          virtual = λ j. ground (arith, s.virtual j);
        },
      )
]

-- The translation from the entries that it reads.
abbrev translation : Bool → (entry table : ℕ) → (ℕ → ℕ → ℕ) → ℕ → Outcome ℕ
translation pse entry table tables v = elim (is_pse entry) [
  | true ↦ elim pse [ false ↦ fault | true ↦ done (page_entry_addr entry + v % 2 ^ 22) ]
  | false ↦ done (page_entry_addr (tables table (table_index v)) + frame_index v)
]

translate-translation :
    (pse : Bool) (a : Directory) (v : ℕ)
    → virtual_to_physical_addr pse a v
      ≡ translation pse
          (a.directory (directory_index v))
          (a.directory_virtual (directory_index v))
          a.tables
          v
unfolding virtual_to_physical_addr
translate-translation pse a v = refl

translate-same :
    (pse : Bool) (a b : Directory) (v : ℕ)
    → a.directory (directory_index v) ≡ b.directory (directory_index v)
    → a.directory_virtual (directory_index v) ≡ b.directory_virtual (directory_index v)
    → a.tables ≡ b.tables
    → virtual_to_physical_addr pse a v ≡ virtual_to_physical_addr pse b v
translate-same pse a b v e f g =
    translate-translation pse a v
    ∙ ap (λ x. translation pse x (a.directory_virtual (directory_index v)) a.tables v) e
    ∙ ap (λ x. translation pse (b.directory (directory_index v)) x a.tables v) f
    ∙ ap
        (λ x.
          translation pse (b.directory (directory_index v))
            (b.directory_virtual (directory_index v)) x v)
        g
    ∙ sym (translate-translation pse b v)

clone-run :
    (physical : ℕ → ℕ) (kernel c : Directory) (handle page : ℕ) (free : List ℕ)
    → clone_loop physical kernel kernel
        (record {
          directory = λ i. 0;
          directory_virtual = λ i. 0;
          tables = kernel.tables;
          free = free;
        })
        1023
        0
      ≡ done c
    → paging_clone_directory physical kernel kernel (handle ∷ page ∷ free)
      ≡ done (map_self physical page c)
unfolding paging_clone_directory
clone-run physical kernel c handle page free e =
    ap (λ o. o >>= (λ copy. done (map_self physical page copy))) e

map_self-other :
    (physical : ℕ → ℕ) (page : ℕ) (c : Directory) (j : ℕ)
    → j < 1023
    → ((map_self physical page c).directory j ≡ c.directory j)
      × ((map_self physical page c).directory_virtual j ≡ c.directory_virtual j)
      × ((map_self physical page c).tables ≡ c.tables)
      × ((map_self physical page c).free ≡ c.free)
      × ((map_self physical page c).directory 1023 ≡ bit_or (physical page) 3)
unfolding map_self
map_self-other physical page c j lt = (ground arith, ground arith, refl, refl, refl)

-- What a clone of the kernel's directory is, seen at an address.
abbrev pub ClonesAt : (ℕ → ℕ) → Directory → ℕ → List ℕ → Bool → ℕ → Outcome Directory → Type 0
ClonesAt physical kernel page free pse v outcome =
    (copy : Directory) × (outcome ≡ done copy)
    × (virtual_to_physical_addr pse copy v ≡ virtual_to_physical_addr pse kernel v)
    × (copy.directory 1023 ≡ bit_or (physical page) 3)
    × (copy.free ≡ free)

-- With memory for a handle and a page, `paging_clone_directory` of the kernel's own directory succeeds and
-- takes no further page. An address below the last 4 MB that the kernel's directory has an entry for
-- translates in the clone as in the kernel's directory, and the last entry of the clone leads, writable
-- and present, to the clone's own page.
pub paging_clone_directory-ClonesAt :
    (physical : ℕ → ℕ) (kernel : Directory) (handle page : ℕ) (free : List ℕ) (pse : Bool) (v : ℕ)
    → directory_index v < 1023
    → (kernel.directory (directory_index v) == 0) ≡ false
    → ClonesAt physical kernel page free pse v
        (paging_clone_directory physical kernel kernel (handle ∷ page ∷ free))
paging_clone_directory-ClonesAt physical kernel handle page free pse v lt some_entry =
    let (c, e, s) =
      clone_loop-Shared physical kernel
        (record {
          directory = λ i. 0;
          directory_virtual = λ i. 0;
          tables = kernel.tables;
          free = free;
        })
        1023 0 in
    let i = directory_index v in
    let kept = map_self-other physical page c i lt in
    let lo : leb 0 i ≡ true = ground arith in
    let d : c.directory i ≡ kernel.directory i = s.entries i ∙ ground arith in
    let w : c.directory_virtual i ≡ kernel.directory_virtual i = s.virtual i ∙ ground arith in
    (
      map_self physical page c,
      clone-run physical kernel c handle page free e,
      translate-same pse (map_self physical page c) kernel v (kept.0 ∙ d) (kept.1 ∙ w)
          (kept.2 ∙ s.same_tables),
      kept.4,
      kept.3 ∙ s.same_free,
    )
