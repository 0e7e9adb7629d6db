-- ===== src/Store/Packed.antt =====
-- store_repack() of daemon/store.c as a whole.
use infod.Prelude.{
  ℕ, ◌+◌, ◌-◌, ◌/◌, ◌%◌, ◌^◌, ◌≤◌, ◌<◌, ◌≡◌, ◌⊎◌, refl, sym, ◌∙◌, ap, is_positive, true, List, [],
  ◌∷◌, map, ltb, leb, ◌==◌, arith, Bool-cases, inl, inr, ==_iff, ltb→lt,
}
use mathlib.Core.Path.{subst}
use mathlib.Core.List.Perm
use mathlib.Core.List.{Perm}
use infod.Prelude.Ends.{Run, done, ◌>>=◌}
use infod.Match.{cstr}
use infod.Store.{strcmp}
use infod.Store.Record.{Bytes, info_align, entry_at, record_is_gap, record_get_size}
use infod.Store.Gap.{record_init_gap-gap, record_init_gap_bytes}
use infod.Store.File.{
  u32_sub, StoreFile, Backing, set_file, entries, init_gap, store_set_space, insert_cell,
  sort_cells, gap_at_end, end_repack, store_repack,
}
use infod.Store.Layout.{Holds, Packs, stop, IsByte, Packs-Agrees, Packs-multiple}
use infod.Store.Repack.{IsRepacked}
use infod.Store.Rounds.{repack_loop-Loops}

insert_cell-Perm : (m : Bytes) (o : ℕ) (cells : List ℕ) → Perm (insert_cell m o cells) (o ∷ cells)
unfolding insert_cell
insert_cell-Perm m o [] = Perm.refl (o ∷ [])
insert_cell-Perm m o (p ∷ cells) =
    elim (Bool-cases (is_positive (strcmp (cstr (entry_at m o)) (cstr (entry_at m p))))) [
      | inl e ↦ rw e (Perm.trans (Perm.cons p (insert_cell-Perm m o cells)) (Perm.swap o p cells))
      | inr e ↦ rw e (Perm.refl (o ∷ p ∷ cells))
    ]

sort_cells-Perm : (m : Bytes) (cells : List ℕ) → Perm (sort_cells m cells) cells
unfolding sort_cells
sort_cells-Perm m [] = Perm.refl []
sort_cells-Perm m (o ∷ cells) =
    Perm.trans (insert_cell-Perm m o (sort_cells m cells)) (Perm.cons o (sort_cells-Perm m cells))

-- The space behind the data is one gap.
abbrev pub IsTail : StoreFile → Type 0
IsTail s =
    (s.space ≡ s.filesz)
    ⊎ ((record_is_gap s.file s.space ≡ true)
        × (record_get_size s.file s.space ≡ s.filesz - s.space))

record Tails (w : ℕ) (s s' : StoreFile) : Type 0 where
  space : s'.space ≡ w
  filesz : s'.filesz ≡ s.filesz
  before : (x : ℕ) → x < w → s'.file x ≡ s.file x
  tail : IsTail s'
  bytes : IsByte s.file → IsByte s'.file
  pagesize : s'.pagesize ≡ s.pagesize

set_space_lem :
    (w : ℕ) (s : StoreFile)
    → w ≤ s.filesz
    → s.filesz < 2 ^ 32
    → (s.filesz - w) % 8 ≡ 0
    → (s' : StoreFile) × (store_set_space w s ≡ done s') × Tails w s s'
unfolding store_set_space init_gap
set_space_lem w s l b e = elim (Bool-cases (w == s.filesz)) [
  | inl q ↦ (
    record s { space = w },
    rw q refl,
    record {
      space = refl;
      filesz = refl;
      before = λ x k. refl;
      tail = inl ((==_iff w s.filesz).0 q);
      bytes = λ h. h;
      pagesize = refl;
    },
  )
  | inr q ↦
      let big : 8 ≤ s.filesz - w = ground (arith, l, e, q) in
      let (m, run, g, n, at) =
        record_init_gap-gap w (s.filesz - w) s.file big (omega (arith, b)) e in
      let part : u32_sub s.filesz w ≡ s.filesz - w = omega (arith, l, b) in
      (
        record s { file = m; space = w },
        rw (q, part) (ap (λ o. o >>= λ m. done (set_file m (record s { space = w }))) run),
        record {
          space = refl;
          filesz = refl;
          before = λ x k. at x (inl k);
          tail = inr (g, n);
          bytes = record_init_gap_bytes w (s.filesz - w) s.file m big run;
          pagesize = refl;
        },
      )
]

-- The bytes from w on are one gap.
pub record IsGapped (w : ℕ) (s s' : StoreFile) : Type 0 where
  pub filesz : s'.filesz ≡ s.filesz
  pub space : s'.space ≡ s.space
  pub pagesize : s'.pagesize ≡ s.pagesize
  pub before : (x : ℕ) → x < w → s'.file x ≡ s.file x
  pub bytes : IsByte s.file → IsByte s'.file
  pub tail :
      (w ≡ s'.filesz)
      ⊎ ((record_is_gap s'.file w ≡ true) × (record_get_size s'.file w ≡ s'.filesz - w))

pub gap_at_end-IsGapped :
    (w : ℕ) (s : StoreFile)
    → w ≤ s.filesz
    → s.filesz < 2 ^ 32
    → (s.filesz - w) % 8 ≡ 0
    → (s' : StoreFile) × (gap_at_end w s ≡ done s') × IsGapped w s s'
unfolding init_gap
gap_at_end-IsGapped w s l b e = elim (Bool-cases (ltb w s.filesz)) [
  | inl q ↦
      let big : 8 ≤ s.filesz - w = ground (arith, e, ltb→lt w s.filesz q) in
      let (m, run, g, n, at) =
        record_init_gap-gap w (s.filesz - w) s.file big (omega (arith, b)) e in
      (
        set_file m s,
        rw q (ap (λ o. o >>= λ m. done (set_file m s)) run),
        record {
          filesz = refl;
          space = refl;
          pagesize = refl;
          before = λ x k. at x (inl k);
          bytes = record_init_gap_bytes w (s.filesz - w) s.file m big run;
          tail = inr (g, n);
        },
      )
  | inr q ↦ (
    s,
    rw q refl,
    record {
      filesz = refl;
      space = refl;
      pagesize = refl;
      before = λ x k. refl;
      bytes = λ h. h;
      tail = inl (ground (arith, q, l));
    },
  )
]

-- The file is packed: the texts are those of the records, which follow each other from the start, the
-- index leads to each of them, and the rest of the file is one gap.
pub record IsPacked (texts : List (List ℕ)) (s s' : StoreFile) : Type 0 where
  pub cells : List ℕ
  pub packs : Packs s'.file s'.space 0 cells
  pub in_order : map (entry_at s'.file) cells ≡ texts
  pub indexed : s'.index ≡ sort_cells s'.file cells
  pub perm : Perm (entries s') texts
  pub space : s'.space ≤ s.space
  pub filesz : s'.filesz ≡ s.filesz
  pub tail : IsTail s'
  pub bytes : IsByte s'.file
  pub pagesize : s'.pagesize ≡ s.pagesize

entries-Perm :
    (s : StoreFile) (cells : List ℕ) (texts : List (List ℕ))
    → s.index ≡ sort_cells s.file cells
    → map (entry_at s.file) cells ≡ texts
    → Perm (entries s) texts
unfolding entries
entries-Perm s cells texts e t =
    subst (λ i. Perm (map (entry_at s.file) i) texts) (sym e)
      (subst (Perm (map (entry_at s.file) (sort_cells s.file cells))) t
        (Perm.map (entry_at s.file) (sort_cells-Perm s.file cells)))

abbrev indexes : List ℕ → StoreFile → Run StoreFile
indexes cells s = done (record s { index = sort_cells s.file cells })

end_repack-IsPacked :
    (texts : List (List ℕ)) (s s' : StoreFile) (w : ℕ) (cells : List ℕ)
    → IsRepacked texts s s' w cells
    → w ≤ s.space
    → s.space ≤ s.filesz
    → s.filesz < 2 ^ 32
    → s.filesz % 8 ≡ 0
    → (t : StoreFile) × (end_repack (s', (w, cells)) ≡ done t) × IsPacked texts s t
end_repack-IsPacked texts s s' w cells k l m b e =
    let eight = (Packs-multiple s'.file w 0 cells k.bytes refl k.packs).0 in
    let part : (s'.filesz - w) % 8 ≡ 0 = omega (arith, eight, e, k.filesz, l, m) in
    let inside : w ≤ s'.filesz = omega (arith, k.filesz, l, m) in
    let short : s'.filesz < 2 ^ 32 = omega (arith, k.filesz, b) in
    let (s1, run, g1) = gap_at_end-IsGapped w s' inside short part in
    let f1 = g1.filesz in
    let (s2, run', t) =
      set_space_lem w s1 (omega (arith, f1, inside)) (omega (arith, f1, short))
        (subst (λ z. (z - w) % 8 ≡ 0) (sym f1) part) in
    let goes : leb w s'.space ≡ true = ground (arith, l, k.space) in
    let agree : (x : ℕ) → 0 ≤ x → x < w → s2.file x ≡ s'.file x =
      λ x _ q. t.before x q ∙ g1.before x q in
    let p = Packs-Agrees s2.file s'.file w 0 cells k.bytes agree k.packs in
    let end : StoreFile = record s2 { index = sort_cells s2.file cells } in
    (
      end,
      rw goes (
          ap (λ o. o >>= store_set_space w >>= indexes cells) run
          ∙ ap (λ o. o >>= indexes cells) run'),
      record {
        cells = cells;
        packs = subst (λ z. Packs s2.file z 0 cells) (sym t.space) p.0;
        in_order = p.1 ∙ k.texts;
        indexed = refl;
        perm = entries-Perm end cells texts refl (p.1 ∙ k.texts);
        space = omega (arith, t.space, l);
        filesz = t.filesz ∙ f1 ∙ k.filesz;
        tail = t.tail;
        bytes = t.bytes (g1.bytes k.bytes);
        pagesize = t.pagesize ∙ g1.pagesize ∙ k.pagesize;
      },
    )

module _ (backing : Backing) (granted : (n : ℕ) → backing.can_alloc n ≡ true) where
  -- With memory for the index, store_repack() of a file of records from its start to its space, of
  -- whole eights of bytes and shorter than 2^32 - 72, ends with no assertion failed. It loses and
  -- changes no key and value and keeps their order in the file, leaves no gap between them and one gap
  -- behind them, and the index has every record, in the order of qsort().
  pub store_repack-IsPacked :
      (texts : List (List ℕ)) (s : StoreFile)
      → Holds s.file s.space 0 texts
      → IsByte s.file
      → s.space ≤ s.filesz
      → s.filesz + 72 < 2 ^ 32
      → s.filesz % 8 ≡ 0
      → (s' : StoreFile) × (store_repack backing s ≡ done s') × IsPacked texts s s'
  unfolding store_repack
  store_repack-IsPacked texts s h b l f e =
      let (s1, w, cells, run, k, m) =
        repack_loop-Loops backing granted texts texts (s.space / info_align + 1) s.space 0 0 s []
          (omega (arith, l, f)) (omega arith) h stop refl (omega arith) b in
      let (t, run', p) = end_repack-IsPacked texts s s1 w cells k m l (omega (arith, f)) e in
      (t, ap (λ o. o >>= end_repack) run ∙ run', p)
