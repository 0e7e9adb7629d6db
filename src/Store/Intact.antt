-- ===== src/Store/Intact.antt =====
-- The file of daemon/store.c in order, and a new record in the space it has.
use infod.Prelude.{
  ℕ, ◌+◌, ◌-◌, ◌%◌, ◌^◌, ◌≤◌, ◌<◌, ◌≡◌, ◌⊎◌, refl, sym, ◌∙◌, ap, true, Option, some, List, [], ◌∷◌,
  ◌++◌, map, leb, All, length, arith, inl, inr,
}
use mathlib.Core.Path.{subst}
use infod.Prelude.Ends.{Run, done, ◌>>=◌}
use infod.Store.Record.{Bytes, write16, write, entry_at, info_size, record_is_gap, record_get_size}
use infod.Store.Gap.{info_size-bounds, write16_bytes}
use infod.Store.File.{StoreFile, Backing, set_file, room}
use infod.Store.Alloc.{place_data}
use infod.Store.Layout.{
  Holds, Packs, Packs-multiple, stop, text, IsByte, Agrees, Holds-Agrees, is_gap-Agrees,
  get_size-Agrees,
}
use infod.Store.Packed.{IsTail, gap_at_end-IsGapped, IsPacked}
use infod.Store.Added.{
  Holds-snoc, write_bytes, new_text_entry, new_text-is_gap, new_text_size, new_text_below,
  new_text_above,
}

-- A file in order that holds these texts: records up to the space, and one gap from there on.
pub record IsIntact (texts : List (List ℕ)) (s : StoreFile) : Type 0 where
  pub holds : Holds s.file s.space 0 texts
  pub bytes : IsByte s.file
  pub within : s.space ≤ s.filesz
  pub eights : s.filesz % 8 ≡ 0
  pub space_eights : s.space % 8 ≡ 0
  pub pages : s.pagesize ≡ 4096
  pub tail : IsTail s

-- A gap, or the end, stays where its eight bytes do.
IsTail-stays :
    (s s' : StoreFile) (w : ℕ)
    → s'.filesz ≡ s.filesz
    → s'.space ≡ w
    → ((x : ℕ) → w ≤ x → s'.file x ≡ s.file x)
    → (w ≡ s.filesz) ⊎ ((record_is_gap s.file w ≡ true) × (record_get_size s.file w ≡ s.filesz - w))
    → IsTail s'
IsTail-stays s s' w f z h (inl e) = inl (z ∙ e ∙ sym f)
IsTail-stays s s' w f z h (inr (g, n)) =
    let a : Agrees s'.file w s.file w 8 = λ k b. h (w + k) (omega arith) in
    inr (
      ap (record_is_gap s'.file) z ∙ is_gap-Agrees s'.file s.file w w 8 (omega arith) a ∙ g,
      ap (record_get_size s'.file) z
          ∙ get_size-Agrees s'.file s.file w w 8 (omega arith) a
          ∙ n
          ∙ omega (arith, f, z),
    )

-- The state after memcpy() of the key and value to the record at `offset`.
abbrev pub filled : ℕ → List ℕ → StoreFile → StoreFile
filled offset kv s = set_file (write (offset + 2) kv s.file) s

pub record IsGrown (texts : List (List ℕ)) (kv : List ℕ) (r : Option ℕ × StoreFile) : Type 0 where
  pub offset : ℕ
  pub returned : r.0 ≡ some offset
  pub intact : IsIntact (texts ++ kv ∷ []) (filled offset kv r.1)

module _ (backing : Backing) where
  pub place_data-IsGrown :
      (texts : List (List ℕ)) (kv : List ℕ) (s : StoreFile)
      → Holds s.file s.space 0 texts
      → IsByte s.file
      → s.filesz % 8 ≡ 0
      → s.space % 8 ≡ 0
      → s.pagesize ≡ 4096
      → s.filesz < 2 ^ 32
      → 0 < length kv
      → length kv < 2 ^ 16
      → All (λ b. b < 2 ^ 8) kv
      → s.space + info_size (length kv) ≤ s.filesz
      → (r : Option ℕ × StoreFile) × (place_data backing (length kv) (info_size (length kv)) s
          ≡ done r)
        × IsGrown texts kv r
  place_data-IsGrown texts kv s h b e e' p f n l a fits =
      let size = info_size (length kv) in
      let i = info_size-bounds (length kv) l in
      let t : StoreFile = record s { space = s.space + size } in
      let (t', run, g) =
        gap_at_end-IsGapped (s.space + size) t fits f (omega (arith, e, e', i.0, fits)) in
      let o = s.space in
      let end : StoreFile = filled o kv (set_file (write16 o (length kv) t'.file) t') in
      let goes : leb size (room s) ≡ true = ground (arith, fits, f) in
      let old =
        Holds-Agrees end.file s.file o 0 texts b
          (λ x _ q. new_text_below o x kv t'.file q ∙ g.before x (omega (arith, q))) h in
      let gap = new_text-is_gap o kv t'.file l n in
      let new = Holds-snoc end.file o 0 texts gap old in
      let sized = new_text_size o kv t'.file l n in
      let at : o + record_get_size end.file o ≡ end.space = omega (arith, sized, g.space) in
      (
        (some o, set_file (write16 o (length kv) t'.file) t'),
        rw goes (ap (λ q. q >>= placed o kv) run),
        record {
          offset = o;
          returned = refl;
          intact = record {
            holds =
                subst (λ z. Holds end.file z 0 (texts ++ kv ∷ [])) at
                  (subst (λ c. Holds end.file (o + record_get_size end.file o) 0 (texts ++ c ∷ []))
                    (new_text_entry o kv t'.file l) new);
            bytes = write_bytes (o + 2) kv _ a (write16_bytes o (length kv) _ (g.bytes b));
            within = omega (arith, g.space, g.filesz, fits);
            eights = ap (λ z. z % 8) g.filesz ∙ e;
            space_eights = omega (arith, g.space, e', i.0);
            pages = g.pagesize ∙ p;
            tail =
                IsTail-stays t' end (s.space + size) refl g.space
                  (λ x q. new_text_above o x kv t'.file (omega (arith, q, i))) g.tail;
          };
        },
      )
    where
      placed : ℕ → List ℕ → StoreFile → Run (Option ℕ × StoreFile)
      placed o kv t = done (some o, set_file (write16 o (length kv) t.file) t)

Packs-Holds :
    (m : Bytes) (e : ℕ) (cells : List ℕ) (o : ℕ)
    → Packs m e o cells
    → Holds m e o (map (entry_at m) cells)
Packs-Holds m e [] o stop = stop
Packs-Holds m e (c ∷ cells) o (text g h) = text g (Packs-Holds m e cells _ h)

pub Packed-IsIntact :
    (texts : List (List ℕ)) (s t : StoreFile)
    → s.space ≤ s.filesz
    → s.filesz % 8 ≡ 0
    → s.pagesize ≡ 4096
    → IsPacked texts s t
    → IsIntact texts t
Packed-IsIntact texts s t l e p k = record {
  holds = subst (Holds t.file t.space 0) k.in_order (Packs-Holds t.file t.space k.cells 0 k.packs);
  bytes = k.bytes;
  within = omega (arith, k.space, l, k.filesz);
  eights = ap (λ z. z % 8) k.filesz ∙ e;
  space_eights = (Packs-multiple t.file t.space 0 k.cells k.bytes refl k.packs).0;
  pages = k.pagesize ∙ p;
  tail = k.tail;
}
