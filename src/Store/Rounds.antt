-- ===== src/Store/Rounds.antt =====
-- The loop of store_repack() of daemon/store.c.
use infod.Prelude.{
  ℕ, zero, suc, ◌+◌, ◌*◌, ◌^◌, ◌≤◌, ◌<◌, ◌≡◌, refl, sym, ◌∙◌, ap, true, List, [], ◌∷◌, ◌++◌, map,
  arith, inl, inr,
}
use mathlib.Core.List.{append-nil}
use infod.Prelude.Ends.{Run, done}
use infod.Store.Record.{u32, entry_at, record_get_size}
use infod.Store.File.{StoreFile, Backing, repack_loop}
use infod.Store.Layout.{
  Holds, Packs, IsByte, data_size, Packs-multiple, Holds-le, gap_size-min, Holds-cases,
}
use infod.Store.Repack.{
  IsRepacked, moved_down, text_moved, repack_data_lem, step_end, step_gap, step_text,
}

module _ (backing : Backing) (granted : (n : ℕ) → backing.can_alloc n ≡ true) where
  abbrev pub Loops : List (List ℕ) → ℕ → ℕ → ℕ → ℕ → StoreFile → List ℕ → Type 0
  Loops all fuel space offset w s cells =
      (s' : StoreFile) × (w' : ℕ) × (cells' : List ℕ) × (repack_loop backing fuel space offset w s
          cells
        ≡ done (s', (w', cells')))
      × IsRepacked all s s' w' cells'
      × (w' ≤ space)

  ended :
      (all rest : List (List ℕ)) (fuel space offset w : ℕ) (s : StoreFile) (cells : List ℕ)
      → space ≤ offset
      → rest ≡ []
      → Packs s.file w 0 cells
      → map (entry_at s.file) cells ++ rest ≡ all
      → w ≤ space
      → IsByte s.file
      → Loops all fuel space offset w s cells
  ended all rest fuel space offset w s cells n z p t l b = (
    s,
    w,
    cells,
    step_end backing granted fuel space offset w s cells n,
    record {
      packs = p;
      texts =
          sym (append-nil (map (entry_at s.file) cells))
          ∙ ap (λ r. map (entry_at s.file) cells ++ r) (sym z)
          ∙ t;
      bytes = b;
      space = refl;
      filesz = refl;
      pagesize = refl;
    },
    l,
  )

  pub repack_loop-Loops :
      (all rest : List (List ℕ)) (fuel space offset w : ℕ) (s : StoreFile) (cells : List ℕ)
      → space + 72 < 2 ^ 32
      → space ≤ offset + 8 * fuel
      → Holds s.file space offset rest
      → Packs s.file w 0 cells
      → map (entry_at s.file) cells ++ rest ≡ all
      → w ≤ offset
      → IsByte s.file
      → Loops all fuel space offset w s cells
  repack_loop-Loops all rest zero space offset w s cells f n h p t l b =
      let le = Holds-le s.file space offset rest h in
      let none_left : rest ≡ [] = elim (Holds-cases s.file space offset rest h) [
        | inl (e, k) ↦ k
        | inr (inl (g, (z, r))) ↦ absurd (omega (arith, n, z, Holds-le s.file space _ _ r))
        | inr (inr (g, (texts, k, r))) ↦
            absurd
              (omega (arith, n, (data_size s.file offset b g).1.1, Holds-le s.file space _ _ r))
      ] in
      ended all rest zero space offset w s cells (omega (arith, n)) none_left p t
        (omega (arith, l, le)) b
  repack_loop-Loops all rest (suc fuel) space offset w s cells f n h p t l b =
      elim (Holds-cases s.file space offset rest h) [
        | inl (e, k) ↦
            ended all rest (suc fuel) space offset w s cells (omega (arith, e)) k p t
              (omega (arith, l, e)) b
        | inr (inl (g, (z, r))) ↦
            let size = record_get_size s.file offset in
            let big = gap_size-min s.file offset g z in
            let le = Holds-le s.file space _ _ r in
            let next : u32 (offset + size) ≡ offset + size = omega (arith, le, f) in
            let (s', w', cells', run, k, m) =
              repack_loop-Loops all rest fuel space (offset + size) w s cells f
                (omega (arith, n, big)) r p t (omega (arith, l)) b in
            (
              s',
              w',
              cells',
              step_gap backing granted fuel space offset w s cells (omega (arith, z, le)) g
                  ∙ ap (λ o. repack_loop backing fuel space o w s cells) next
                  ∙ run,
              k,
              m,
            )
        | inr (inr (g, (texts, e, r))) ↦
            let size = record_get_size s.file offset in
            let big = (data_size s.file offset b g).1.1 in
            let le = Holds-le s.file space _ _ r in
            let few = (Packs-multiple s.file w 0 cells b refl p).1 in
            let next : u32 (offset + size) ≡ offset + size = omega (arith, le, f) in
            let next' : u32 (w + size) ≡ w + size = omega (arith, le, f, l) in
            let go : StoreFile → List ℕ → Run (StoreFile × (ℕ × List ℕ)) = λ s' cells'.
              repack_loop backing fuel space (u32 (offset + size)) (u32 (w + size)) s' cells' in
            let (max, q) =
              repack_data_lem backing granted offset w size s cells go
                (omega (arith, few, l, le, f)) in
            let t' : StoreFile = record s { file = moved_down w offset size s.file; max = max } in
            let v =
              text_moved backing granted all texts space offset w s cells g r p
                (ap (λ x. map (entry_at s.file) cells ++ x) (sym e) ∙ t) l b max in
            let (s', w', cells', run, k, m) =
              repack_loop-Loops all texts fuel space (offset + size) (w + size) t' (cells ++ w ∷ [])
                f (omega (arith, n, big)) v.ahead v.packs v.texts v.order v.bytes in
            (
              s',
              w',
              cells',
              step_text backing granted fuel space offset w s cells (omega (arith, big, le)) g
                  ∙ q
                  ∙ ap (λ o. repack_loop backing fuel space o (u32 (w + size)) t' (cells ++ w ∷ []))
                      next
                  ∙ ap (λ o. repack_loop backing fuel space (offset + size) o t' (cells ++ w ∷ []))
                      next'
                  ∙ run,
              record {
                packs = k.packs;
                texts = k.texts;
                bytes = k.bytes;
                space = k.space;
                filesz = k.filesz;
                pagesize = k.pagesize;
              },
              m,
            )
      ]
